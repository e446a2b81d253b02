-- ===== src/Crawlers/YCombinator/Seen.antt =====
-- What holds of the candidates and the URLs that were seen.
use ai_internship_demo_task.Prelude.{
  ◌||◌, true, false, List, [], ◌∷◌, ◌++◌, ◌≡◌, refl, sym, ap, ◌∙◌, arith, All, All-append, All-imp,
  Bool-cases, inl, inr,
}
use ai_internship_demo_task.Prelude.Eq.{same, nat_eq, list_eq}
use ai_internship_demo_task.Prelude.Dict.{contains, same_refl}
use ai_internship_demo_task.Prelude.Text.{Text}
use ai_internship_demo_task.Crawlers.Candidates.{StartupCandidate}
use ai_internship_demo_task.Crawlers.YCombinator.{Found, push, see}

-- The canonical URLs of candidates.
abbrev pub urls_of : List StartupCandidate → List Text
urls_of [] = []
urls_of (c ∷ cs) = c.canonical_url ∷ urls_of cs

abbrev pub IsDistinct : List StartupCandidate → Type 0
IsDistinct [] = Unit
IsDistinct (c ∷ cs) = (contains (urls_of cs) c.canonical_url ≡ false) × IsDistinct cs

-- Every candidate's URL was seen, and no two are the same.
pub record IsFound (s : Found) : Type 0 where
  pub all_seen : All (λ (c : StartupCandidate). contains s.seen c.canonical_url ≡ true) s.candidates
  pub distinct : IsDistinct s.candidates

contains-snoc :
    (cs : List StartupCandidate) (c : StartupCandidate) (url : Text)
    → contains (urls_of (cs ++ c ∷ [])) url
      ≡ (contains (urls_of cs) url || same c.canonical_url url)
unfolding contains
contains-snoc [] c url = ground arith
contains-snoc (d ∷ cs) c url = ground (arith, contains-snoc cs c url)

same_sym : (a b : Text) → same a b ≡ false → same b a ≡ false
same_sym a b h = elim (Bool-cases (same b a)) [
  | inr e ↦ e
  | inl e ↦
      let q : b ≡ a = (list_eq.beq_iff b a).0 e in
      let e' : same a b ≡ true = (list_eq.beq_iff a b).1 (sym q) in absurd (cc)
]

IsDistinct-snoc :
    (cs : List StartupCandidate) (c : StartupCandidate)
    → IsDistinct cs
    → contains (urls_of cs) c.canonical_url ≡ false
    → IsDistinct (cs ++ c ∷ [])
unfolding contains
IsDistinct-snoc [] c d h = (refl, tt)
IsDistinct-snoc (b ∷ cs) c (n, d) h =
    let apart : same b.canonical_url c.canonical_url ≡ false = ground (arith, h) in
    let others : contains (urls_of cs) c.canonical_url ≡ false = ground (arith, h) in
    let apart' = same_sym b.canonical_url c.canonical_url apart in
    (contains-snoc cs c b.canonical_url ∙ rw (n, apart') refl, IsDistinct-snoc cs c d others)

unseen :
    (seen : List Text) (cs : List StartupCandidate) (url : Text)
    → All (λ (c : StartupCandidate). contains seen c.canonical_url ≡ true) cs
    → contains seen url ≡ false
    → contains (urls_of cs) url ≡ false
unfolding contains
unseen seen [] url h n = refl
unseen seen (c ∷ cs) url h n = elim (Bool-cases (same c.canonical_url url)) [
  | inl e ↦
      let q : c.canonical_url ≡ url = (list_eq.beq_iff c.canonical_url url).0 e in
      let there : contains seen url ≡ true = ap (contains seen) (sym q) ∙ h.0 in absurd (cc)
  | inr e ↦ rw e (unseen seen cs url h.1 n)
]

seen_before :
    (seen : List Text) (new url : Text)
    → contains seen url ≡ true
    → contains (new ∷ seen) url ≡ true
unfolding contains
seen_before seen new url h = ground (arith, h)

seen_now : (seen : List Text) (new : Text) → contains (new ∷ seen) new ≡ true
unfolding contains
seen_now seen new = rw (same_refl new) refl

pub see-IsFound : (url : Text) (s : Found) → IsFound s → IsFound (see url s)
unfolding see
see-IsFound url s h = record {
  all_seen =
      All-imp (λ (c : StartupCandidate). seen_before s.seen url c.canonical_url) s.candidates
        h.all_seen;
  distinct = h.distinct;
}

-- A candidate whose URL was not seen before.
pub push-IsFound :
    (c : StartupCandidate) (s : Found)
    → IsFound s
    → contains s.seen c.canonical_url ≡ false
    → IsFound (push c (see c.canonical_url s))
unfolding see push
push-IsFound c s h n = record {
  all_seen =
      All-append
        (λ (d : StartupCandidate). contains (c.canonical_url ∷ s.seen) d.canonical_url ≡ true)
        s.candidates (c ∷ []) (see-IsFound c.canonical_url s h).all_seen
        (seen_now s.seen c.canonical_url, tt);
  distinct =
      IsDistinct-snoc s.candidates c h.distinct
        (unseen s.seen s.candidates c.canonical_url h.all_seen n);
}
