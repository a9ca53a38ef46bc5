-- ===== src/R1cs/Shapes.antt =====
-- Shapes built from sorted rows, and the pair of zeros that folding starts from.
use nexus_zkvm.Base.{
  ℕ, zero, suc, ◌+◌, ◌-◌, ◌≤◌, ◌<◌, ◌≡◌, refl, sym, ap, ◌∙◌, subst, arith, false, List, [], ◌∷◌,
  ◌++◌, map, leb, ◌==◌, length, replicate, length-replicate, length-append, length-map,
}
use nexus_zkvm.Base.Result.{ok, ◌>>=◌}
use nexus_zkvm.Sparse.{SparseMatrix, Row, pointers, from_rows, new, multiply_vec}
use nexus_zkvm.Sparse.Dense.{IsRow, swap_row, coefficient, dot}
use nexus_zkvm.Sparse.Build.{AreRows, padded, new_lem}
use nexus_zkvm.Sparse.Multiply.{dense, multiply_vec-new}
use nexus_zkvm.R1cs.{Ring, field_of, Commitment, okay, R1csShape, validate_row, validate}
use nexus_zkvm.R1cs.Satisfied.{
  built, new_shape, is_relaxed_satisfied, new_relaxed, zero_relaxed_witness, products,
}
use nexus_zkvm.R1cs.Relaxed.{IsRelaxed-is_relaxed_satisfied}
use nexus_zkvm.R1cs.Plain.{index-replicate}
use nexus_zkvm.R1cs.Folded.{IsShape}

length-pointers :
    {F : Type 0} (p : ℕ) (rows : List (Row F)) → length (pointers p rows) ≡ suc (length rows)
length-pointers p [] = refl
length-pointers p (row ∷ rows) = ap suc (length-pointers (p + length row) rows)

module _ {F : Type 0} where
  validate_row_lem :
      (n cols i j : ℕ) (row : List (F × ℕ))
      → i < n
      → IsRow j cols row
      → validate_row n cols i row ≡ okay tt
  unfolding validate_row
  validate_row_lem n cols i j [] h r = refl
  validate_row_lem n cols i j ((f, k) ∷ row) h r =
      let low : leb n i ≡ false = ground arith in
      let inside : leb cols k ≡ false = ground (arith, r.1) in
      rw (low, inside) (validate_row_lem n cols i (suc k) row h (r.2))

  validate_lem :
      (n cols i : ℕ) (rows : List (List (F × ℕ)))
      → i + length rows ≤ n
      → AreRows cols rows
      → validate n cols i rows ≡ okay tt
  unfolding validate
  validate_lem n cols i [] h r = refl
  validate_lem n cols i (row ∷ rows) h r =
      rw (validate_row_lem n cols i 0 row (omega (arith, h)) (r.0))
        (validate_lem n cols (i + 1) rows (omega (arith, h)) (r.1))

  length-padded_rows :
      (rows : List (List (F × ℕ))) (n : ℕ) → length rows ≤ n → length (padded rows n) ≡ n
  length-padded_rows rows n h =
      let fill : length {A = List (F × ℕ)} (replicate (n - length rows) []) ≡ n - length rows =
        length-replicate (n - length rows) [] in
      omega (arith, h, length-append rows (replicate (n - length rows) []), fill)

  length-padded :
      (rows : List (List (F × ℕ))) (n : ℕ)
      → length rows ≤ n
      → length (map swap_row (padded rows n)) ≡ n
  length-padded rows n h = length-map swap_row (padded rows n) ∙ length-padded_rows rows n h

  -- The matrix of some rows.
  abbrev pub matrix_of : List (List (F × ℕ)) → ℕ → ℕ → SparseMatrix F
  matrix_of rows n cols = from_rows (map swap_row (padded rows n)) cols

  abbrev pub shape_of :
      ℕ → ℕ → ℕ → List (List (F × ℕ)) → List (List (F × ℕ)) → List (List (F × ℕ)) → R1csShape F
  shape_of n vars io a b c = record {
    num_constraints = n;
    num_vars = vars;
    num_io = io;
    a = matrix_of a n (io + vars);
    b = matrix_of b n (io + vars);
    c = matrix_of c n (io + vars);
  }

  -- With a public input, and at most `n` sorted rows in each matrix with columns in the vector, the
  -- shape is built, and each of its matrices has a row for each constraint.
  pub new_shape_lem :
      (n vars io : ℕ) (a b c : List (List (F × ℕ)))
      → 0 < io
      → length a ≤ n
      → length b ≤ n
      → length c ≤ n
      → AreRows (io + vars) a
      → AreRows (io + vars) b
      → AreRows (io + vars) c
      → (new_shape n vars io a b c ≡ ok (okay (shape_of n vars io a b c)))
        × IsShape (shape_of n vars io a b c)
  unfolding new_shape built
  new_shape_lem n vars io a b c pos ha hb hc ra rb rc =
      let some_io : (io == 0) ≡ false = ground arith in
      (
        rw
            (
              some_io,
              validate_lem n (io + vars) 0 a (omega (arith, ha)) ra,
              validate_lem n (io + vars) 0 b (omega (arith, hb)) rb,
              validate_lem n (io + vars) 0 c (omega (arith, hc)) rc,
              new_lem a n (io + vars) ha ra,
              new_lem b n (io + vars) hb rb,
              new_lem c n (io + vars) hc rc,
            )
            refl,
        record {
          rows_a = length-pointers 0 (map swap_row (padded a n)) ∙ ap suc (length-padded a n ha);
          rows_b = length-pointers 0 (map swap_row (padded b n)) ∙ ap suc (length-padded b n hb);
          rows_c = length-pointers 0 (map swap_row (padded c n)) ∙ ap suc (length-padded c n hc);
        },
      )

replicate-append :
    {A : Type 0} (m n : ℕ) (a : A) → replicate m a ++ replicate n a ≡ replicate (m + n) a
replicate-append zero n a = let e : 0 + n ≡ n = omega arith in rw e refl
replicate-append (suc m) n a =
    let e : suc m + n ≡ suc (m + n) = omega arith in rw e (ap (λ l. a ∷ l) (replicate-append m n a))

module _ {F : Type 0} (ring : Ring F) where
  dot-zeros :
      (e : ℕ → F) (j n : ℕ) (acc : F) → dot (field_of ring) e j (replicate n (ring.nil)) acc ≡ acc
  dot-zeros e j zero acc = refl
  dot-zeros e j (suc n) acc =
      let none : ring.plus acc (ring.times (e j) (ring.nil)) ≡ acc =
        ap (ring.plus acc) (ring.times_comm (e j) (ring.nil) ∙ ring.times-nil (e j))
        ∙ ring.plus-nil acc in
      ap (λ a. dot (field_of ring) e (suc j) (replicate n (ring.nil)) a) none
      ∙ dot-zeros e (suc j) n acc

  dense-zeros :
      (rows : List (List (F × ℕ))) (n : ℕ)
      → dense (field_of ring) rows (replicate n (ring.nil)) ≡ replicate (length rows) (ring.nil)
  dense-zeros [] n = refl
  dense-zeros (row ∷ rows) n =
      ap
        (λ l.
          dot (field_of ring) (coefficient (field_of ring) row) 0 (replicate n (ring.nil))
            (ring.nil)
          ∷ l)
        (dense-zeros rows n)
      ∙ ap (λ x. x ∷ replicate (length rows) (ring.nil))
          (dot-zeros (coefficient (field_of ring) row) 0 n (ring.nil))

  multiply-zeros :
      (rows : List (List (F × ℕ))) (n cols : ℕ)
      → length rows ≤ n
      → AreRows cols rows
      → multiply_vec (field_of ring) (matrix_of rows n cols) (replicate cols (ring.nil))
        ≡ ok (replicate n (ring.nil))
  multiply-zeros rows n cols h r =
      let v = replicate cols (ring.nil) in
      let size : length v ≡ cols = length-replicate cols (ring.nil) in
      ap (λ m. m >>= λ m'. multiply_vec (field_of ring) m' v) (sym (new_lem rows n cols h r))
      ∙ ap (λ k. new rows n k >>= λ m. multiply_vec (field_of ring) m v) (sym size)
      ∙ multiply_vec-new (field_of ring) rows n v h (subst (λ k. AreRows k rows) (sym size) r)
      ∙ ap ok (
          dense-zeros (padded rows n) cols
          ∙ ap (λ k. replicate k (ring.nil)) (length-padded_rows rows n h))

  module _ {C : Type 0} (scheme : Commitment F ring C) where
    -- With a public input, and at most `n` sorted rows in each matrix with columns in the vector, the
    -- test accepts the instance and the witness of zeros in the shape of these rows.
    pub zero-satisfied :
        (n vars io : ℕ) (a b c : List (List (F × ℕ)))
        → 0 < io
        → length a ≤ n
        → length b ≤ n
        → length c ≤ n
        → AreRows (io + vars) a
        → AreRows (io + vars) b
        → AreRows (io + vars) c
        → is_relaxed_satisfied ring scheme
            (shape_of n vars io a b c)
            (new_relaxed ring scheme (shape_of n vars io a b c))
            (zero_relaxed_witness ring (shape_of n vars io a b c))
          ≡ ok (okay tt)
    zero-satisfied n vars io a b c pos ha hb hc ra rb rc =
        let zs : replicate io (ring.nil) ++ replicate vars (ring.nil)
            ≡ replicate (io + vars) (ring.nil) =
          replicate-append io vars (ring.nil) in
        let zeros = replicate n (ring.nil) in
        IsRelaxed-is_relaxed_satisfied ring scheme (shape_of n vars io a b c) _ _ (record {
          w_len = length-replicate vars (ring.nil);
          x_len = length-replicate io (ring.nil);
          e_len = length-replicate n (ring.nil);
          az = zeros;
          bz = zeros;
          cz = zeros;
          scalar = ring.nil;
          multiplied =
              ap (products ring (shape_of n vars io a b c)) zs
              ∙ rw
                  (
                    multiply-zeros a n (io + vars) ha ra,
                    multiply-zeros b n (io + vars) hb rb,
                    multiply-zeros c n (io + vars) hc rc,
                  )
                  refl;
          first = index-replicate io 0 (ring.nil) pos;
          rows = λ j inside.
              let at = index-replicate n j (ring.nil) inside in
              record {
                a = ring.nil;
                b = ring.nil;
                c = ring.nil;
                d = ring.nil;
                at_a = at;
                at_b = at;
                at_c = at;
                at_e = at;
                equation = sym (ring.plus-nil (ring.times (ring.nil) (ring.nil)));
              };
          commits_w = sym (scheme.commit-zeros vars);
          commits_e = sym (scheme.commit-zeros n);
        })
