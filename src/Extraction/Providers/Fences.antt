-- ===== src/Extraction/Providers/Fences.antt =====
-- An answer in a fence is read as the answer without it.
use ai_internship_demo_task.Prelude.{
  ℕ, ◌&&◌, Bool, true, false, Option, none, [], ◌∷◌, ◌++◌, ◌≡◌, refl, arith, Bool-cases, inl, inr,
  ap, sym, ◌∙◌, append_assoc, length, length-append,
}
use ai_internship_demo_task.Prelude.Eq.{same, nat_eq, list_eq}
use ai_internship_demo_task.Prelude.Dict.{same_refl}
use ai_internship_demo_task.Prelude.Text.{Text, codes, strip, lstrip, rstrip, is_empty, is_space}
use ai_internship_demo_task.Prelude.Json.{Value}
use ai_internship_demo_task.Extraction.Providers.{
  as_dict, fence, strip_prefix, remove_prefix, remove_suffix, unfence, parse_json_object,
}

tick_is_full : is_space b'`' ≡ false
unfolding is_space
tick_is_full = refl

feed_is_space : is_space 10 ≡ true
unfolding is_space
feed_is_space = refl

is_empty-append : (s : Text) (c : ℕ) → is_empty (s ++ c ∷ []) ≡ false
is_empty-append [] c = refl
is_empty-append (d ∷ s) c = refl

and_false_right : (b : Bool) → (b && false) ≡ false
and_false_right true = refl
and_false_right false = refl

rstrip-append_full : (s : Text) (c : ℕ) → is_space c ≡ false → rstrip (s ++ c ∷ []) ≡ s ++ c ∷ []
unfolding rstrip
rstrip-append_full [] c h = rw h refl
rstrip-append_full (d ∷ s) c h =
    rw (rstrip-append_full s c h, is_empty-append s c, and_false_right (is_space d)) refl

rstrip-append_space : (s : Text) (c : ℕ) → is_space c ≡ true → rstrip (s ++ c ∷ []) ≡ rstrip s
unfolding rstrip
rstrip-append_space [] c h = rw h refl
rstrip-append_space (d ∷ s) c h = rw (rstrip-append_space s c h) refl

strip-append_space : (s : Text) (c : ℕ) → is_space c ≡ true → strip (s ++ c ∷ []) ≡ strip s
unfolding strip lstrip rstrip
strip-append_space [] c h = rw h refl
strip-append_space (d ∷ s) c h = elim (Bool-cases (is_space d)) [
  | inl e ↦ rw e (strip-append_space s c h)
  | inr e ↦ rw e (rstrip-append_space (d ∷ s) c h)
]

strip-cons_space : (c : ℕ) (s : Text) → is_space c ≡ true → strip (c ∷ s) ≡ strip s
unfolding strip lstrip
strip-cons_space c s h = rw h refl

strip-full :
    (c : ℕ) (s : Text) (d : ℕ)
    → is_space c ≡ false
    → is_space d ≡ false
    → strip (c ∷ (s ++ d ∷ [])) ≡ c ∷ (s ++ d ∷ [])
unfolding strip lstrip
strip-full c s d h k = rw h (rstrip-append_full (c ∷ s) d k)

longer_is_different : (c : ℕ) (x p : Text) → same (c ∷ (x ++ p)) p ≡ false
longer_is_different c x p = elim (Bool-cases (same (c ∷ (x ++ p)) p)) [
  | inl e ↦
      let q : length (c ∷ (x ++ p)) ≡ length p =
        ap (λ (t : Text). length t) ((list_eq.beq_iff (c ∷ (x ++ p)) p).0 e) in
      absurd (omega (arith, q, length-append x p))
  | inr e ↦ e
]

remove_suffix-append : (x : Text) (c : ℕ) (p : Text) → remove_suffix (c ∷ p) (x ++ (c ∷ p)) ≡ x
unfolding remove_suffix
remove_suffix-append [] c p = rw (same_refl (c ∷ p)) refl
remove_suffix-append (d ∷ x) c p =
    rw (longer_is_different d x (c ∷ p)) (ap (◌∷◌ d) (remove_suffix-append x c p))

-- The text in a fence of its own lines.
abbrev pub fenced : Text → Text
fenced s = codes "```json" ++ (10 ∷ (s ++ (10 ∷ fence)))

strip-fenced : (s : Text) → strip (fenced s) ≡ fenced s
strip-fenced s =
    let x : Text = codes "``json" ++ (10 ∷ (s ++ (10 ∷ codes "``"))) in
    let e : fenced s ≡ b'`' ∷ (x ++ b'`' ∷ []) =
      ap (λ (t : Text). codes "```json" ++ (10 ∷ t))
        (sym (append_assoc s (10 ∷ codes "``") (b'`' ∷ []))) in
    ap strip e ∙ (strip-full b'`' x b'`' tick_is_full tick_is_full ∙ sym e)

unfence-fenced : (s : Text) → unfence (fenced s) ≡ strip s
unfolding unfence remove_prefix strip_prefix
unfence-fenced s =
    ap (λ (t : Text). strip (remove_suffix fence (10 ∷ t))) (sym (append_assoc s (10 ∷ []) fence))
    ∙ (ap strip (remove_suffix-append (10 ∷ (s ++ 10 ∷ [])) b'`' (codes "``"))
        ∙ (strip-cons_space 10 (s ++ 10 ∷ []) feed_is_space
            ∙ strip-append_space s 10 feed_is_space))

unfence-plain : (s : Text) → strip_prefix fence s ≡ none → unfence s ≡ s
unfolding unfence strip_prefix
unfence-plain s h = rw h refl

-- An answer that does not begin with a fence itself is read in the same way with and without a fence of
-- lines of its own, by any JSON parser.
pub parse_json_object-fenced :
    (loads : Text → Option Value) (s : Text)
    → strip_prefix fence (strip s) ≡ none
    → parse_json_object loads (fenced s) ≡ parse_json_object loads s
unfolding parse_json_object
parse_json_object-fenced loads s h =
    ap (λ (t : Text). as_dict (loads t))
      (ap unfence (strip-fenced s) ∙ (unfence-fenced s ∙ sym (unfence-plain (strip s) h)))
