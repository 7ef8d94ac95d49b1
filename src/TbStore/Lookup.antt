-- ===== src/TbStore/Lookup.antt =====
-- exec/src/tb_store.rs: the invariant of the store's hash table, and what a lookup finds.
use tcg_rs.Base.{ℕ, ◌<◌, ◌≡◌, refl, sym, ap, ◌∙◌, Option, some, true, length}
use tcg_rs.Tb.{hash_bucket}
use tcg_rs.TbStore.{TbStore, lookup, new_store}
use tcg_rs.TbStore.Chain.{
  Chain, Chain-frame, down_from, down_from-Below, down_from_congr, length-Below, All-down_from,
  pick-down_from, newest, newest-eq-some,
}
use tcg_rs.TbStore.View.{View, view, next_of, hits, in_bucket, lookup_from-Chain}
use tcg_rs.TbStore.Facts.{hits-in_bucket, next_of_congr, in_bucket_congr}

-- The chain of a bucket goes through the valid blocks below `n` that belong there, the latest first.
abbrev pub Linked : View → (ℕ → Option ℕ) → ℕ → Type 0
Linked v hash n = (b : ℕ) → Chain (next_of v) (hash b) (down_from (in_bucket v b) n)

abbrev pub IsStore : TbStore → Type 0
IsStore s = Linked (view s.tbs) s.hash (length s.tbs)

pub Linked-congr :
    (v v' : View) (hash : ℕ → Option ℕ) (n : ℕ)
    → ((i : ℕ) → i < n → v' i ≡ v i)
    → Linked v hash n
    → Linked v' hash n
Linked-congr v v' hash n h l b =
    let same =
      down_from_congr (in_bucket v' b) (in_bucket v b) n
        (λ i k. in_bucket_congr v v' i (h i k) b) in
    rw same (
      Chain-frame (next_of v) (next_of v') (down_from (in_bucket v b) n) (hash b)
        (All-down_from (in_bucket v b) n (λ i k d. next_of_congr v v' i (h i k))) (l b))

-- A lookup ends, without a panic, and finds the latest of the valid blocks with the guest address and
-- the flags, or none where there is none, whatever else shares its bucket.
pub lookup-newest :
    (s : TbStore) (pc flags : ℕ)
    → IsStore s
    → lookup s pc flags ≡ some (newest (hits (view s.tbs) pc flags) (length s.tbs))
unfolding lookup
lookup-newest s pc flags h =
    let b = hash_bucket pc flags in
    let v = view s.tbs in
    let n = length s.tbs in
    let xs = down_from (in_bucket v b) n in
    lookup_from-Chain s.tbs pc flags xs (s.hash b) n (h b)
      (length-Below xs n (down_from-Below (in_bucket v b) n))
    ∙ ap some (pick-down_from (hits v pc flags) (in_bucket v b) n (hits-in_bucket v pc flags))

pub new_store-IsStore : IsStore new_store
unfolding new_store
new_store-IsStore b = refl

-- What a lookup finds is a valid block of the store with the guest address and the flags.
pub lookup-hits :
    (s : TbStore) (pc flags i : ℕ)
    → IsStore s
    → lookup s pc flags ≡ some (some i)
    → (i < length s.tbs) × (hits (view s.tbs) pc flags i ≡ true)
lookup-hits s pc flags i h e =
    let r : some (newest (hits (view s.tbs) pc flags) (length s.tbs)) ≡ some (some i) =
      sym (lookup-newest s pc flags h) ∙ e in
    newest-eq-some (hits (view s.tbs) pc flags) (length s.tbs) (cc)
