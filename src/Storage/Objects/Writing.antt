-- ===== src/Storage/Objects/Writing.antt =====
-- What a write to the raw store does to its files.
use ai_internship_demo_task.Prelude.{
  Bool, true, false, Option, none, some, [], ◌∷◌, ◌++◌, ◌≡◌, ◌≢◌, refl, ap, sym, ◌∙◌, arith, length,
  length-append, if◌then◌else◌, Bool-cases, inl, inr,
}
use ai_internship_demo_task.Prelude.Eq.{same, nat_eq, list_eq}
use ai_internship_demo_task.Prelude.Dict.{lookup, lookup-insert, same_refl}
use ai_internship_demo_task.Prelude.Text.{Text, codes}
use ai_internship_demo_task.Storage.Objects.{Files, temporary_of, unlink, write_new, persist_sync}

-- A file that is there, under another name than two temporary ones, stays as it is.
abbrev pub ExtendsBut : Text → Text → Files → Files → Type 0
ExtendsBut first second files files' =
    (path content : Text)
    → first ≢ path
    → second ≢ path
    → lookup path files ≡ some content
    → lookup path files' ≡ some content

-- What a write leaves at its path: what was there, or else the payload, or nothing if a temporary file was
-- left over.
abbrev pub written : Option Text → Option Text → Text → Option Text
written (some old) left payload = some old
written none none payload = some payload
written none (some left) payload = none

differ : (s t : Text) → s ≢ t → same s t ≡ false
differ s t ne = elim (Bool-cases (same s t)) [
  | inl e ↦ absurd (ne ((list_eq.beq_iff s t).0 e))
  | inr e ↦ e
]

true-ne-false : ¬ (true ≡ false)
true-ne-false h = cc

if_none : (b : Bool) → ◌≡◌ {A = Option Text} none (if b then none else none)
if_none true = refl
if_none false = refl

if_twice :
    (b : Bool) (x y z : Option Text) → (if b then x else z) ≡ (if b then x else if b then y else z)
if_twice true x y z = refl
if_twice false x y z = refl

if_apart :
    (b c : Bool) (y z : Option Text)
    → (b ≡ true → ¬ (c ≡ true))
    → (if b then y else if c then none else z) ≡ (if c then none else if b then y else z)
if_apart true true y z h = absurd (h refl refl)
if_apart true false y z h = refl
if_apart false c y z h = refl

apart : (s t : Text) → same s t ≡ false → s ≢ t
apart s t e p = true-ne-false (sym (same_refl s) ∙ ap (same s) p ∙ e)

lookup-unlink :
    (path other : Text) (files : Files)
    → lookup other (unlink path files) ≡ (if same path other then none else lookup other files)
unfolding unlink lookup
lookup-unlink path other [] = if_none (same path other)
lookup-unlink path other ((k, content) ∷ files) = elim (Bool-cases (same k path)) [
  | inl e ↦
      let p : same k other ≡ same path other =
        ap (λ (q : Text). same q other) ((list_eq.beq_iff k path).0 e) in
      rw e (lookup-unlink path other files ∙ rw p (if_twice (same path other) _ (some content) _))
  | inr e ↦
      rw (e, lookup-unlink path other files)
        (if_apart (same k other) (same path other) (some content) (lookup other files) (λ f g.
          true-ne-false
            ((sym (ap (λ (q : Text). same k q) ((list_eq.beq_iff path other).0 g) ∙ f)) ∙ e)))
]

-- A write touches no file but its own and its temporary one.
write_new-other :
    (found left : Option Text) (temporary path payload other : Text) (files : Files)
    → temporary ≢ other
    → path ≢ other
    → lookup other (write_new found left temporary path payload files) ≡ lookup other files
unfolding write_new
write_new-other (some old) left temporary path payload other files t p = refl
write_new-other none none temporary path payload other files t p =
    lookup-insert path other payload files ∙ rw (differ path other p) refl
write_new-other none (some left) temporary path payload other files t p =
    lookup-unlink temporary other files ∙ rw (differ temporary other t) refl

pub persist_sync-other :
    (pid path payload other : Text) (files : Files)
    → temporary_of pid path ≢ other
    → path ≢ other
    → lookup other (persist_sync pid path payload files) ≡ lookup other files
unfolding persist_sync
persist_sync-other pid path payload other files t p =
    write_new-other (lookup path files) (lookup (temporary_of pid path) files)
      (temporary_of pid path) path payload other files t p

write_new-there :
    (found left : Option Text) (temporary path payload : Text) (files : Files)
    → temporary ≢ path
    → lookup path files ≡ found
    → lookup path (write_new found left temporary path payload files) ≡ written found left payload
unfolding write_new
write_new-there (some old) left temporary path payload files t e = e
write_new-there none none temporary path payload files t e =
    lookup-insert path path payload files ∙ rw (same_refl path) refl
write_new-there none (some left) temporary path payload files t e =
    lookup-unlink temporary path files ∙ (rw (differ temporary path t) e)

temporary_of-ne : (pid path : Text) → temporary_of pid path ≢ path
unfolding temporary_of
temporary_of-ne pid path e = absurd (
    omega (
      arith,
      ap (λ (t : Text). length t) e,
      length-append path (codes ".tmp-" ++ pid),
      length-append (codes ".tmp-") pid,
    ))

pub persist_sync-there :
    (pid path payload : Text) (files : Files)
    → lookup path (persist_sync pid path payload files)
      ≡ written (lookup path files) (lookup (temporary_of pid path) files) payload
unfolding persist_sync
persist_sync-there pid path payload files =
    write_new-there (lookup path files) (lookup (temporary_of pid path) files)
      (temporary_of pid path) path payload files (temporary_of-ne pid path) refl

pub persist_sync-ExtendsBut :
    (pid path payload other content : Text) (files : Files)
    → temporary_of pid path ≢ other
    → lookup other files ≡ some content
    → lookup other (persist_sync pid path payload files) ≡ some content
persist_sync-ExtendsBut pid path payload other content files t h =
    elim (Bool-cases (same path other)) [
      | inl e ↦
          let p : path ≡ other = (list_eq.beq_iff path other).0 e in
          let there : lookup path files ≡ some content = ap (λ (q : Text). lookup q files) p ∙ h in
          ap (λ (q : Text). lookup q (persist_sync pid path payload files)) (sym p)
          ∙ persist_sync-there pid path payload files
          ∙ rw there refl
      | inr e ↦ persist_sync-other pid path payload other files t (apart path other e) ∙ h
    ]
