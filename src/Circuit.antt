-- ===== src/Circuit.antt =====
-- The builder of the step circuit's constraints (vm/src/circuit/r1cs.rs): dense matrices over the
-- scalar field, a witness beside them, and names for its entries. The field is third-party code: a
-- parameter. A name is its bytes.
pub mod Gadget
pub mod Dots
pub mod Merge
pub mod Meaning
pub mod Select
pub mod Riscv
use nexus_zkvm.Base.{
  ℕ, zero, suc, ◌+◌, ◌-◌, ◌*◌, ◌≡◌, Bool, true, false, ◌&&◌, Option, none, some, List, [], ◌∷◌,
  ◌++◌, map, ltb, ◌==◌, if◌then◌else◌, length, get_elem?, set, take, drop, replicate,
}
use nexus_zkvm.Base.Result.{Result, ok, panic, ◌>>=◌, index, from_option}
use nexus_zkvm.R1cs.{Ring}

abbrev pub Name : Type 0
Name = List ℕ

abbrev pub name_eq : Name → Name → Bool
name_eq [] [] = true
name_eq [] (y ∷ ys) = false
name_eq (x ∷ xs) [] = false
name_eq (x ∷ xs) (y ∷ ys) = x == y && name_eq xs ys

-- A map from names to indices; its order is never read but by `merge`, which ends alike.
abbrev pub Vars : Type 0
Vars = List (Name × ℕ)

abbrev pub find : Vars → Name → Option ℕ
find [] name = none
find ((n, i) ∷ vars) name = if name_eq n name then some i else find vars name

abbrev pub insert : Vars → Name → ℕ → Vars
insert [] name i = (name, i) ∷ []
insert ((n, j) ∷ vars) name i =
    if name_eq n name then (n, i) ∷ vars else (n, j) ∷ insert vars name i

abbrev pub remove : Vars → Name → Vars
remove [] name = []
remove ((n, j) ∷ vars) name = if name_eq n name then vars else (n, j) ∷ remove vars name

abbrev pub contains_key : Vars → Name → Bool
contains_key vars name = elim (find vars name) [ none ↦ false | some i ↦ true ]

-- `v[i] = x`.
abbrev pub put {ℓ} : {A : Type ℓ} → List A → ℕ → A → Result (List A)
put v i x = if ltb i (length v) then ok (set v i x) else panic

pub record R1cs (F : Type 0) : Type 0 where
  pub w : List F
  pub a : List (List F)
  pub b : List (List F)
  pub c : List (List F)
  pub arity : ℕ
  pub witness_only : Bool
  pub vars : Vars
  pub locals : List Name

-- Where a range starts, and where it ends.
abbrev pub input_range : {F : Type 0} → R1cs F → ℕ × ℕ
input_range cs = (1, 1 + cs.arity)

abbrev pub output_range : {F : Type 0} → R1cs F → ℕ × ℕ
output_range cs = (1 + cs.arity, 1 + 2 * cs.arity)

abbrev pub insert_all : ℕ → Vars → Vars → Vars
insert_all offset vars [] = vars
insert_all offset vars ((n, i) ∷ more) = insert_all offset (insert vars n (offset + i)) more

abbrev pub remove_all : Vars → List Name → Vars
remove_all vars [] = vars
remove_all vars (n ∷ ns) = remove_all (remove vars n) ns

module _ {F : Type 0} where
  unfoldable pub seal : R1cs F → R1cs F
  seal cs = record cs { vars = remove_all (cs.vars) (cs.locals); locals = [] }

  abbrev pub has_var : R1cs F → Name → Bool
  has_var cs name = contains_key (cs.vars) name

  abbrev pub var : R1cs F → Name → Result ℕ
  var cs name = from_option (find (cs.vars) name)

  abbrev pub get_var : R1cs F → Name → Result F
  get_var cs name = var cs name >>= λ i. index (cs.w) i

module _ {F : Type 0} (ring : Ring F) where
  -- `R1CS::default`.
  abbrev pub default : R1cs F
  default = record {
    w = ring.one ∷ [];
    a = [];
    b = [];
    c = [];
    arity = 0;
    witness_only = false;
    vars = [];
    locals = [];
  }

  -- The matrices grow by a column where there is a row in the first.
  abbrev pub widen : List (List F) → List (List F)
  widen m = map (λ row. row ++ ring.nil ∷ []) m

  abbrev pub fresh : Name → R1cs F → R1cs F
  fresh name cs =
      let grown : List (List F) → List (List F) = λ m. if length (cs.a) == 0 then m else widen m in
      record cs {
        vars = insert (cs.vars) name (length (cs.w));
        w = cs.w ++ ring.nil ∷ [];
        a = grown (cs.a);
        b = grown (cs.b);
        c = grown (cs.c);
      }

  abbrev pub found_or_fresh : Name → R1cs F → Option ℕ → ℕ × R1cs F
  found_or_fresh name cs (some n) = (n, cs)
  found_or_fresh name cs none = (length (cs.w), fresh name cs)

  unfoldable pub new_var : Name → R1cs F → ℕ × R1cs F
  new_var name cs = found_or_fresh name cs (find (cs.vars) name)

  -- `self.w[j] = val`.
  abbrev pub put_w : ℕ → F → R1cs F → Result (R1cs F)
  put_w j val cs = put (cs.w) j val >>= λ w'. ok (record cs { w = w' })

  unfoldable pub set_field_var : Name → F → R1cs F → Result (ℕ × R1cs F)
  set_field_var name val cs =
      let made = new_var name cs in put_w (made.0) val (made.1) >>= λ cs'. ok (made.0, cs')

  unfoldable pub new_local_var : Name → R1cs F → Result (ℕ × R1cs F)
  new_local_var name cs =
      if contains_key (cs.vars) name
      then panic
      else let made = new_var name cs in
        ok (made.0, record (made.1) { locals = made.1.locals ++ name ∷ [] })

  -- The closure reads the system and fills three rows of zeros.
  unfoldable pub constraint :
      (R1cs F → List F → Result (List F × List F × List F)) → R1cs F → Result (R1cs F)
  constraint f cs =
      if cs.witness_only
      then ok cs
      else (f cs (replicate (length (cs.w)) ring.nil) >>= λ rows.
          ok (record cs {
            a = cs.a ++ rows.0 ∷ [];
            b = cs.b ++ rows.1 ∷ [];
            c = cs.c ++ rows.2 ∷ [];
          }))

  -- The sum of the products, from the left.
  abbrev pub dot_from : F → List F → List F → F
  dot_from acc [] ys = acc
  dot_from acc (x ∷ xs) [] = acc
  dot_from acc (x ∷ xs) (y ∷ ys) = dot_from (ring.plus acc (ring.times x y)) xs ys

  abbrev pub dot : List F → List F → F
  dot xs ys = dot_from ring.nil xs ys

  -- Every row of the three matrices, which are of one height.
  abbrev pub all_rows : List (List F) → List (List F) → List (List F) → List F → Bool
  all_rows [] bs cs w = true
  all_rows (a ∷ as') [] cs w = true
  all_rows (a ∷ as') (b ∷ bs) [] w = true
  all_rows (a ∷ as') (b ∷ bs) (c ∷ cs) w =
      ring.eq (ring.times (dot a w) (dot b w)) (dot c w) && all_rows as' bs cs w

  abbrev pub are_wide : ℕ → List (List F) → Bool
  are_wide n [] = true
  are_wide n (row ∷ rows) = length row == n && are_wide n rows

  -- With the debug assertions.
  unfoldable pub is_sat : R1cs F → Result Bool
  is_sat cs =
      if length (cs.a) == length (cs.b)
        && (length (cs.a) == length (cs.c)
            && (are_wide (length (cs.w)) (cs.a)
                && (are_wide (length (cs.w)) (cs.b) && are_wide (length (cs.w)) (cs.c))))
      then ok (all_rows (cs.a) (cs.b) (cs.c) (cs.w))
      else panic

  abbrev pub resize : ℕ → List F → List F
  resize n row = take n row ++ replicate (n - length row) ring.nil

  -- Rows of the left system end with zeros, those of the right system begin with them.
  abbrev pub merge_rows : ℕ → ℕ → List (List F) → List (List F) → List (List F)
  merge_rows left_len len m right =
      map (resize len) m ++ map (λ row. replicate left_len ring.nil ++ row) right

  unfoldable pub merge : R1cs F → R1cs F → R1cs F
  merge cs right =
      let left_len : ℕ = length (cs.w) in
      let len : ℕ = left_len + length (right.w) in
      record cs {
        w = cs.w ++ right.w;
        a = merge_rows left_len len (cs.a) (right.a);
        b = merge_rows left_len len (cs.b) (right.b);
        c = merge_rows left_len len (cs.c) (right.c);
        vars = insert_all left_len (cs.vars) (right.vars);
      }
