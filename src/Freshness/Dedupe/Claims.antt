-- ===== src/Freshness/Dedupe/Claims.antt =====
-- What a sequence of claims accepts.
use ai_internship_demo_task.Prelude.{
  Bool, true, false, ◌||◌, if◌then◌else◌, List, [], ◌∷◌, ◌≡◌, refl, arith, Bool-cases, inl, inr,
  map,
}
use ai_internship_demo_task.Prelude.Eq.{nat_eq, list_eq}
use ai_internship_demo_task.Prelude.Dict.{contains}
use ai_internship_demo_task.Prelude.Text.{Text}
use ai_internship_demo_task.Freshness.Dedupe.{DedupeIndex, set_add, persist, claim}

-- The claims of a sequence that are accepted, each with its URL's key and its content's key.
unfoldable pub accepted : List (Text × Text) → DedupeIndex → List (Text × Text)
accepted [] i = []
accepted ((url_key, hash_key) ∷ claims) i =
    let (taken, i') = claim url_key hash_key i in
    let rest = accepted claims i' in if taken then (url_key, hash_key) ∷ rest else rest

-- No key of the list occurs before, or twice.
abbrev pub New : List Text → List Text → Type 0
New seen [] = Unit
New seen (k ∷ ks) = (contains seen k ≡ false) × New (k ∷ seen) ks

or_false : {a b : Bool} → (a || b) ≡ false → (a ≡ false) × (b ≡ false)
or_false {a = true} {b = b} h = (h, ground (arith, h))
or_false {a = false} {b = b} h = (refl, h)

pub claim_taken :
    (url_key hash_key : Text) (i : DedupeIndex)
    → (contains i.source_ids_by_url url_key || contains i.content_hashes hash_key) ≡ false
    → ((claim url_key hash_key i).0 ≡ true)
      × ((claim url_key hash_key i).1.source_ids_by_url ≡ url_key ∷ i.source_ids_by_url)
      × ((claim url_key hash_key i).1.content_hashes ≡ hash_key ∷ i.content_hashes)
unfolding claim persist set_add
claim_taken url_key hash_key i h = (ground (arith, h), ground (arith, h), ground (arith, h))

pub claim_refused :
    (url_key hash_key : Text) (i : DedupeIndex)
    → (contains i.source_ids_by_url url_key || contains i.content_hashes hash_key) ≡ true
    → claim url_key hash_key i ≡ (false, i)
unfolding claim
claim_refused url_key hash_key i h = rw h refl

-- No URL's key and no content's key is accepted twice, or accepted if the index has it already.
pub accepted-New :
    (claims : List (Text × Text)) (i : DedupeIndex)
    → New i.source_ids_by_url (map (λ (c : Text × Text). c.0) (accepted claims i))
      × New i.content_hashes (map (λ (c : Text × Text). c.1) (accepted claims i))
unfolding accepted
accepted-New [] i = (tt, tt)
accepted-New ((url_key, hash_key) ∷ claims) i =
    elim (Bool-cases (contains i.source_ids_by_url url_key || contains i.content_hashes hash_key)) [
      | inl h ↦ rw (claim_refused url_key hash_key i h) (accepted-New claims i)
      | inr h ↦
          let (taken, urls, hashes) = claim_taken url_key hash_key i h in
          let next = accepted-New claims (claim url_key hash_key i).1 in
          let (new_url, new_hash) = or_false h in
          let next_urls = rw urls at next.0 in
          let next_hashes = rw hashes at next.1 in
          rw taken ((new_url, next_urls), (new_hash, next_hashes))
    ]
