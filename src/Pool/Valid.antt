-- ===== src/Pool/Valid.antt =====
-- Every operation on the pool keeps its ids held once, and what follows for the threads.
use mathlib.Core.List.{reverse}
use nexus_zkvm.Base.{
  ℕ, ◌+◌, ◌<◌, ◌≡◌, ◌≢◌, refl, ap, sym, ◌∙◌, subst, arith, inl, inr, Bool, true, false, Bool-cases,
  Option, none, some, List, ◌∷◌, ltb, if◌then◌else◌, length, set, get_or, get_elem?,
}
use nexus_zkvm.Base.Result.{ok, panic, >>=-eq-ok, from_option, ok-inj}
use nexus_zkvm.Pool.{
  SegQueue, BlockPool, BufHandle, handle, alloc, free, is_free, write, read, drop_handle, into_id,
  release, free_count,
}
use nexus_zkvm.Pool.Queue.{count, erase}
use nexus_zkvm.Pool.Scan.{count-reverse, length-reverse, is_free_lem}
use nexus_zkvm.Pool.Steps.{
  num_ids, Step, allocates, writes, reads, publishes, releases, drops, claims, frees, scans, Reach,
  start, step, IsValid, alloc-cases, new_pool-IsValid, write-IsValid, freed-IsValid,
}

some-inj : {A : Type 0} {x y : A} → some x ≡ some y → x ≡ y
some-inj e = ground arith

none-some : {A : Type 0} {x : A} → none ≢ some x
none-some e = cc

count-turned :
    (i : ℕ) (b : Bool) (xs : List ℕ) → count i (if b then reverse xs else xs) ≡ count i xs
count-turned i true xs = count-reverse i xs
count-turned i false xs = refl

length-turned : (b : Bool) (xs : List ℕ) → length (if b then reverse xs else xs) ≡ length xs
length-turned true xs = length-reverse xs
length-turned false xs = refl

module _ {P Q : Type 0} (queue : SegQueue Q) where
  -- What a pool is after `free`.
  abbrev freed : ℕ → BlockPool P Q → BlockPool P Q
  freed i pool = record {
    blocks = set (pool.blocks) i none;
    free_ids = queue.push i (pool.free_ids);
  }

  abbrev with_slot : ℕ → Option P → BlockPool P Q → BlockPool P Q
  with_slot i slot pool = record pool { blocks = set (pool.blocks) i slot }

  free-eq-ok :
      (i : ℕ) (pool : BlockPool P Q) {pool' : BlockPool P Q}
      → free queue i pool ≡ ok pool'
      → (i < length (pool.blocks)) × (freed i pool ≡ pool')
  unfolding free
  free-eq-ok i pool {pool' = pool'} e = elim (Bool-cases (ltb i (length (pool.blocks)))) [
    | inl inside ↦ (ground arith, ok-inj (rw inside at e))
    | inr outside ↦ let e' : panic ≡ ok pool' = rw outside at e in cc
  ]

  write-eq-ok :
      (h : BufHandle) (value : P) (pool : BlockPool P Q) {pool' : BlockPool P Q}
      → write queue h value pool ≡ ok pool'
      → with_slot (h.id) (some value) pool ≡ pool'
  unfolding write
  write-eq-ok h value pool e =
      let (old, at, done) = >>=-eq-ok (from_option (get_elem? (pool.blocks) (h.id))) _ e in
      ok-inj done

  read-eq-ok :
      (h : BufHandle) (pool : BlockPool P Q) {value : P} {pool' : BlockPool P Q}
      → read queue h pool ≡ ok (value, pool')
      → with_slot (h.id) none pool ≡ pool'
  unfolding read
  read-eq-ok h pool e =
      let (slot, at, more) = >>=-eq-ok (from_option (get_elem? (pool.blocks) (h.id))) _ e in
      let (taken, same, done) = >>=-eq-ok (from_option slot) _ more in ap (λ p. p.1) (ok-inj done)

  into_id-eq-ok :
      (h : BufHandle) (pool : BlockPool P Q) {i : ℕ} {pool' : BlockPool P Q}
      → into_id queue h pool ≡ ok (i, pool')
      → pool ≡ pool'
  unfolding into_id drop_handle
  into_id-eq-ok h pool e = ap (λ p. p.1) (ok-inj e)

  release-eq-ok :
      (h : BufHandle) (pool : BlockPool P Q) {pool' : BlockPool P Q}
      → release queue h pool ≡ ok pool'
      → free queue (h.id) pool ≡ ok pool'
  unfolding release drop_handle
  release-eq-ok h pool e =
      let (after, done, same) = >>=-eq-ok (free queue (h.id) pool) _ e in done ∙ same

  drop_handle-eq-ok :
      (h : BufHandle) (pool : BlockPool P Q) {pool' : BlockPool P Q}
      → h.released ≡ false
      → drop_handle queue h pool ≡ ok pool'
      → free queue (h.id) pool ≡ ok pool'
  unfolding drop_handle
  drop_handle-eq-ok h pool kept e = rw kept at e

  free-IsValid :
      (num_cores i : ℕ) (pool pool' : BlockPool P Q) (live : List ℕ)
      → IsValid queue num_cores pool live
      → 0 < count i live
      → free queue i pool ≡ ok pool'
      → IsValid queue num_cores pool' (erase i live)
  free-IsValid n i pool pool' live v held e =
      let (inside, same) = free-eq-ok i pool e in
      subst (λ p. IsValid queue n p (erase i live)) same
        (freed-IsValid queue n i pool live v held inside)

  taken-IsValid :
      (num_cores i : ℕ) (q : Q) (pool : BlockPool P Q) (live : List ℕ)
      → IsValid queue num_cores pool live
      → queue.ids (pool.free_ids) ≡ i ∷ queue.ids q
      → IsValid queue num_cores (record pool { free_ids = q }) (i ∷ live)
  taken-IsValid n i q pool live v rest = record {
    sized = v.sized;
    once = λ j. omega (arith, v.once j, ap (count j) rest);
    total = omega (arith, v.total, ap length rest);
    clean = λ j h. v.clean j (omega (arith, h, ap (count j) rest));
  }

  alloc-IsValid :
      (num_cores : ℕ) (h : BufHandle) (pool pool' : BlockPool P Q) (live : List ℕ)
      → IsValid queue num_cores pool live
      → alloc queue pool ≡ some (h, pool')
      → IsValid queue num_cores pool' (h.id ∷ live)
  alloc-IsValid n h pool pool' live v e = elim (alloc-cases queue pool) [
    | inl (stopped, nothing) ↦ absurd (none-some (sym stopped ∙ e))
    | inr (i, q, made, rest) ↦
        let same : some (handle i, record pool { free_ids = q }) ≡ some (h, pool') = sym made ∙ e in
        subst (λ r. IsValid queue n (r.1) (r.0.id ∷ live)) (some-inj same)
          (taken-IsValid n i q pool live v rest)
  ]

  is_free-IsValid :
      (num_cores i : ℕ) (pool : BlockPool P Q) (live : List ℕ)
      → IsValid queue num_cores pool live
      → IsValid queue num_cores (is_free queue i pool).1 live
  is_free-IsValid n i pool live v =
      let facts = is_free_lem queue i pool in
      record {
        sized = ap length (facts.1) ∙ v.sized;
        once = λ j.
            omega (
              arith,
              v.once j,
              ap (count j) (facts.2),
              count-turned j _ (queue.ids (pool.free_ids)),
            );
        total =
            omega
              (arith, v.total, ap length (facts.2), length-turned _ (queue.ids (pool.free_ids)));
        clean = λ j h.
            ap (λ b. get_or b j none) (facts.1)
            ∙ v.clean j (
                omega
                  (arith, h, ap (count j) (facts.2), count-turned j _ (queue.ids (pool.free_ids))));
      }

  Step-IsValid :
      {num_cores : ℕ} {pool pool' : BlockPool P Q} {live live' : List ℕ}
      → Step queue pool live pool' live'
      → IsValid queue num_cores pool live
      → IsValid queue num_cores pool' live'
  Step-IsValid (allocates h e kept) v = rw kept (alloc-IsValid _ h _ _ _ v e)
  Step-IsValid (writes h value held e kept) v =
      rw (kept, sym (write-eq-ok h value _ e)) (write-IsValid queue _ _ _ _ _ v held)
  Step-IsValid (reads h value held e kept) v =
      rw (kept, sym (read-eq-ok h _ e)) (write-IsValid queue _ _ _ _ _ v held)
  Step-IsValid (publishes h i e kept) v = rw (kept, sym (into_id-eq-ok h _ e)) v
  Step-IsValid (releases h held e kept) v =
      rw kept (free-IsValid _ _ _ _ _ v held (release-eq-ok h _ e))
  Step-IsValid (drops h mine held e kept) v =
      rw kept (free-IsValid _ _ _ _ _ v held (drop_handle-eq-ok h _ mine e))
  Step-IsValid (claims i h held e same kept) v = rw (same, kept) v
  Step-IsValid (frees i held e kept) v = rw kept (free-IsValid _ _ _ _ _ v held e)
  Step-IsValid {num_cores = n} {live = live} (scans i b e kept) v =
      rw kept (subst (λ r. IsValid queue n (r.1) live) e (is_free-IsValid n i _ live v))

  -- In every state that a disciplined use of a new pool reaches, in which only an id that is out is
  -- written, read, claimed or given back, and each is given back once, by `release`, by dropping its
  -- handle or by `free`: every id is held once, by the queue or by a thread, their numbers add up, and
  -- every free block is empty.
  pub Reach-IsValid :
      (num_cores : ℕ) (pool : BlockPool P Q) (live : List ℕ)
      → Reach queue num_cores pool live
      → IsValid queue num_cores pool live
  Reach-IsValid n pool live start = new_pool-IsValid queue n
  Reach-IsValid n pool live (step r s) = Step-IsValid s (Reach-IsValid n _ _ r)

  -- In a reachable pool with fewer ids out than there are, `alloc` succeeds. Its id is one of the pool's
  -- that no thread holds, its block is empty, and one block fewer is free.
  pub Reach-alloc :
      (num_cores : ℕ) (pool : BlockPool P Q) (live : List ℕ)
      → Reach queue num_cores pool live
      → length live < num_ids num_cores
      → (h : BufHandle) × (pool' : BlockPool P Q) × (alloc queue pool ≡ some (h, pool'))
        × (count (h.id) live ≡ 0)
        × (h.id < num_ids num_cores)
        × (get_or (pool'.blocks) (h.id) none ≡ none)
        × (free_count queue pool' + length live + 1 ≡ num_ids num_cores)
  Reach-alloc n pool live r room = elim (alloc-cases queue pool) [
    | inl (stopped, nothing) ↦ absurd (omega (arith, room, v.total, ap length nothing))
    | inr (i, q, made, rest) ↦ (
      handle i,
      record pool { free_ids = q },
      made,
      ground (arith, v.once i, ap (count i) rest),
      ground (arith, v.once i, ap (count i) rest),
      v.clean i (ground (arith, ap (count i) rest)),
      omega (arith, queue.len-ids q, v.total, ap length rest),
    )
  ]
    where
      v : IsValid queue n pool live
      v = Reach-IsValid n pool live r
