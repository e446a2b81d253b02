-- ===== src/Freshness/Dedupe/Distributed.antt =====
-- The Redis index answers as the local one does.
use ai_internship_demo_task.Prelude.{
  Bool, false, ◌||◌, List, [], ◌∷◌, ◌++◌, ◌≡◌, refl, ap, sym, ◌∙◌, Bool-cases, inl, inr,
}
use ai_internship_demo_task.Prelude.Eq.{same, nat_eq, list_eq}
use ai_internship_demo_task.Prelude.Dict.{contains, same_refl}
use ai_internship_demo_task.Prelude.Text.{Text, codes}
use ai_internship_demo_task.Freshness.Dedupe.{
  DedupeIndex, set_add, claim, claim_script, claim_redis, url_name, content_name,
}
use ai_internship_demo_task.Freshness.Dedupe.Claims.{claim_taken, claim_refused}

same_prefix : (p a b : Text) → same (p ++ a) (p ++ b) ≡ same a b
same_prefix [] a b = refl
same_prefix (c ∷ p) a b = rw (same_refl c) (same_prefix p a b)

-- The names of the two kinds of keys never meet, and each is as distinct as its identities.
same-url_name : (n a b : Text) → same (url_name n a) (url_name n b) ≡ same a b
unfolding url_name
same-url_name n a b =
    same_prefix n (codes ":url:" ++ a) (codes ":url:" ++ b) ∙ same_prefix (codes ":url:") a b

same-content_name : (n a b : Text) → same (content_name n a) (content_name n b) ≡ same a b
unfolding content_name
same-content_name n a b =
    same_prefix n (codes ":content:" ++ a) (codes ":content:" ++ b)
    ∙ same_prefix (codes ":content:") a b

same_url-content : (n a b : Text) → same (url_name n a) (content_name n b) ≡ false
unfolding url_name content_name
same_url-content n a b = same_prefix n (codes ":url:" ++ a) (codes ":content:" ++ b) ∙ refl

same_content-url : (n a b : Text) → same (content_name n a) (url_name n b) ≡ false
unfolding url_name content_name
same_content-url n a b = same_prefix n (codes ":content:" ++ a) (codes ":url:" ++ b) ∙ refl

contains-set_add :
    (x : Text) (s : List Text) (y : Text) → contains (set_add x s) y ≡ (same x y || contains s y)
unfolding set_add contains
contains-set_add x s y = elim (Bool-cases (contains s x)) [
  | inl h ↦ rw h (elim (Bool-cases (same x y)) [
    | inl k ↦ rw k (ap (contains s) (sym ((list_eq.beq_iff x y).0 k)) ∙ h)
    | inr k ↦ rw k refl
  ])
  | inr h ↦ rw h refl
]

contains-cons :
    (x : Text) (s : List Text) (y : Text) → contains (x ∷ s) y ≡ (same x y || contains s y)
unfolding contains
contains-cons x s y = refl

-- The database holds exactly the names of the index's keys.
pub record Mirrors (namespace : Text) (i : DedupeIndex) (db : List Text) : Type 0 where
  pub urls : (k : Text) → contains db (url_name namespace k) ≡ contains i.source_ids_by_url k
  pub contents : (k : Text) → contains db (content_name namespace k) ≡ contains i.content_hashes k

pub empty-Mirrors :
    (namespace : Text) (i : DedupeIndex)
    → i.source_ids_by_url ≡ []
    → i.content_hashes ≡ []
    → Mirrors namespace i []
unfolding contains
empty-Mirrors namespace i e f = record { urls = λ k. rw e refl; contents = λ k. rw f refl }

-- On a database that mirrors the index, the two give the same answer to a claim, and the database
-- mirrors the index after it.
pub claim_redis-Mirrors :
    (namespace url_id hash_id : Text) (i : DedupeIndex) (db : List Text)
    → Mirrors namespace i db
    → ((claim_redis namespace url_id hash_id db).0 ≡ (claim url_id hash_id i).0)
      × Mirrors namespace (claim url_id hash_id i).1 (claim_redis namespace url_id hash_id db).1
unfolding claim_redis claim_script
claim_redis-Mirrors namespace url_id hash_id i db m =
    elim (Bool-cases (contains i.source_ids_by_url url_id || contains i.content_hashes hash_id)) [
      | inl h ↦
          rw (claim_refused url_id hash_id i h, m.urls url_id, m.contents hash_id, h) (refl, m)
      | inr h ↦
          let (taken, urls, hashes) = claim_taken url_id hash_id i h in
          rw (m.urls url_id, m.contents hash_id, h)
            (
              sym taken,
              record {
                urls = λ k.
                    rw
                      (
                        urls,
                        contains-set_add (content_name namespace hash_id)
                            (set_add (url_name namespace url_id) db) (url_name namespace k),
                        contains-set_add (url_name namespace url_id) db (url_name namespace k),
                        same_content-url namespace hash_id k,
                        same-url_name namespace url_id k,
                        m.urls k,
                        contains-cons url_id i.source_ids_by_url k,
                      )
                      refl;
                contents = λ k.
                    rw
                      (
                        hashes,
                        contains-set_add (content_name namespace hash_id)
                            (set_add (url_name namespace url_id) db) (content_name namespace k),
                        contains-set_add (url_name namespace url_id) db (content_name namespace k),
                        same_url-content namespace url_id k,
                        same-content_name namespace hash_id k,
                        m.contents k,
                        contains-cons hash_id i.content_hashes k,
                      )
                      refl;
              },
            )
    ]

-- The answers to a sequence of claims.
unfoldable pub answers : List (Text × Text) → DedupeIndex → List Bool
answers [] i = []
answers ((url_id, hash_id) ∷ claims) i =
    let (taken, i') = claim url_id hash_id i in taken ∷ answers claims i'

unfoldable pub answers_redis : Text → List (Text × Text) → List Text → List Bool
answers_redis namespace [] db = []
answers_redis namespace ((url_id, hash_id) ∷ claims) db =
    let (taken, db') = claim_redis namespace url_id hash_id db in
    taken ∷ answers_redis namespace claims db'

answers_mirrored :
    (namespace : Text) (claims : List (Text × Text)) (i : DedupeIndex) (db : List Text)
    → Mirrors namespace i db
    → answers_redis namespace claims db ≡ answers claims i
unfolding answers answers_redis
answers_mirrored namespace [] i db m = refl
answers_mirrored namespace ((url_id, hash_id) ∷ claims) i db m =
    let (same_answer, m') = claim_redis-Mirrors namespace url_id hash_id i db m in
    rw
      (
        same_answer,
        answers_mirrored namespace claims (claim url_id hash_id i).1
            (claim_redis namespace url_id hash_id db).1 m',
      )
      refl

-- Over any sequence of claims of an index without keys, an empty Redis database gives the answers of the
-- local index, whatever the namespace.
pub answers_redis-answers :
    (namespace : Text) (claims : List (Text × Text)) (i : DedupeIndex)
    → i.source_ids_by_url ≡ []
    → i.content_hashes ≡ []
    → answers_redis namespace claims [] ≡ answers claims i
answers_redis-answers namespace claims i e f =
    answers_mirrored namespace claims i [] (empty-Mirrors namespace i e f)
