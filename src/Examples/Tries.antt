-- ===== src/Examples/Tries.antt =====
-- A trie whose field is the natural numbers and whose hashes are sums.
use nexus_zkvm.Base.{◌^◌, ap, ◌∙◌, ℕ, ◌+◌, ◌*◌, ◌≡◌, refl, arith, some, List, [], ◌∷◌, true, ◌==◌}
use nexus_zkvm.Base.Result.{ok}
use nexus_zkvm.Rv32.{sw}
use nexus_zkvm.Memory.CacheLine.{CacheLine, zero_line, store_line}
use nexus_zkvm.Memory.Path.{Commitments, hash_leaf, hash_memory, compress}
use nexus_zkvm.Memory.Controller.{LineUpdate}
use nexus_zkvm.Memory.Trie.{query}
use nexus_zkvm.Memory.Trie.Update.{IsTotal}
use nexus_zkvm.Memory.Trie.Laws.{IsQueried, IsReplaced, query-IsQueried, update-IsReplaced}
use nexus_zkvm.Memory.Trie.Start.{empty_digest, IsEmptyTrie, default_trie-IsEmptyTrie}
use nexus_zkvm.Memory.Trie.Alias.{query-add}

abbrev sum_bytes : List ℕ → ℕ
sum_bytes [] = 1
sum_bytes (b ∷ bs) = b + 3 * sum_bytes bs

abbrev pub sums : Commitments ℕ
sums = record {
  from_le_bytes_mod_order = sum_bytes;
  default_digest = 0;
  digest_eq = λ a b. a == b;
  evaluate = λ (a, b). some (a + 5 * b);
  compress_two = λ a b. some (a + 7 * b);
}

pub sums-IsTotal : IsTotal sums
unfolding hash_leaf hash_memory compress
sums-IsTotal = record { hashes = λ cl. (_, refl); compresses = λ a b. (_, refl) }

pub digest_eq_refl : (d : ℕ) → sums.digest_eq d d ≡ true
digest_eq_refl d = ground arith

default_trie-IsEmptyTrie_example : IsEmptyTrie sums sums-IsTotal
default_trie-IsEmptyTrie_example = default_trie-IsEmptyTrie sums sums-IsTotal

pub empty_trie : IsEmptyTrie sums sums-IsTotal
empty_trie = default_trie-IsEmptyTrie sums sums-IsTotal

abbrev store_word : LineUpdate
store_word cl = store_line cl sw 0x1004 0xdead_beef

abbrev new_line : CacheLine
new_line = (store_word zero_line).1

stores_word : store_word zero_line ≡ (ok tt, new_line)
unfolding store_line
stores_word = refl

query-IsQueried_example :
    IsQueried sums (empty_digest sums sums-IsTotal) digest_eq_refl empty_trie.start 0x1004
query-IsQueried_example =
    query-IsQueried sums (empty_digest sums sums-IsTotal) digest_eq_refl empty_trie.start 0x1004
      empty_trie.keeps

update-IsReplaced_example :
    IsReplaced sums
      (empty_digest sums sums-IsTotal)
      digest_eq_refl
      empty_trie.start
      0x1004
      store_word
      new_line
update-IsReplaced_example =
    update-IsReplaced sums (empty_digest sums sums-IsTotal) digest_eq_refl sums-IsTotal
      empty_trie.start 0x1004 store_word new_line empty_trie.keeps
      (ap store_word (empty_trie.lines 0x1004) ∙ stores_word)

query-add_example :
    query sums empty_trie.start (0x1004 + 2 ^ 31) ≡ query sums empty_trie.start 0x1004
query-add_example = query-add sums empty_trie.start 0x1004
