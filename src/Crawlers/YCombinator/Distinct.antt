-- ===== src/Crawlers/YCombinator/Distinct.antt =====
-- The startups of a response have different URLs.
use ai_internship_demo_task.Prelude.{
  ℕ, false, Option, none, some, List, [], ◌∷◌, ◌≡◌, if◌then◌else◌, Bool-cases, inl, inr,
}
use ai_internship_demo_task.Prelude.Eq.{nat_eq, list_eq}
use ai_internship_demo_task.Prelude.Dict.{contains}
use ai_internship_demo_task.Prelude.Result.{Result, ok, raise, ◌>>=◌}
use ai_internship_demo_task.Prelude.Text.{Text, is_empty}
use ai_internship_demo_task.Prelude.Json.{
  Value, null, bool, num, str, arr, obj, Elements, no_elements, element, Fields, field, end, get,
}
use ai_internship_demo_task.Crawlers.Candidates.{StartupCandidate}
use ai_internship_demo_task.Parsing.FullText.{Call}
use ai_internship_demo_task.Crawlers.YCombinator.Markup.{feed, new_parser}
use ai_internship_demo_task.Crawlers.YCombinator.Items.{Error, candidate_from_json_ld, is_truthy}
use ai_internship_demo_task.Crawlers.YCombinator.{
  Found, Ending, completed, interrupted, see, add_hit, with_canonical, hit_candidate, then_loop,
  company_url, with_website, with_name, process_hit, process_hits, hits_of, parse_payload,
  add_candidate, add_result, process_items, parse_rest, parse,
}
use ai_internship_demo_task.Crawlers.YCombinator.Seen.{
  IsDistinct, IsFound, see-IsFound, push-IsFound,
}

add_hit-IsFound :
    (hit : Fields) (name website canonical : Text) (desc : Option Value) (s : Found)
    → IsFound s
    → contains s.seen canonical ≡ false
    → IsFound (add_hit hit name website canonical desc (see canonical s)).1
unfolding add_hit hit_candidate
add_hit-IsFound hit name website canonical none s h n = see-IsFound canonical s h
add_hit-IsFound hit name website canonical (some desc) s h n =
    push-IsFound (hit_candidate hit name website canonical desc) s h n

with_canonical-IsFound :
    (hit : Fields) (name website : Text) (found : Option Text) (s : Found)
    → IsFound s
    → IsFound (with_canonical hit name website found s).1
unfolding with_canonical
with_canonical-IsFound hit name website none s h = h
with_canonical-IsFound hit name website (some canonical) s h =
    elim (Bool-cases (contains s.seen canonical)) [
      | inl e ↦ rw e h
      | inr e ↦ rw e (add_hit-IsFound hit name website canonical _ s h e)
    ]

then_loop-IsFound :
    (r : Ending × Found) (f : Found → Ending × Found)
    → IsFound r.1
    → ((s : Found) → IsFound s → IsFound (f s).1)
    → IsFound (then_loop r f).1
unfolding then_loop
then_loop-IsFound (completed, s) f h g = g s h
then_loop-IsFound (interrupted, s) f h g = h

module _ (canonicalize_url : Text → Option Text) (lower : Text → Text) (str_of : Value → Text)
    (int_of : Text → Option ℕ) where
  -- Of a website that is no text: it is refused, or replaced if it is empty.
  refused-IsFound :
      (hit : Fields) (name : Text) (v : Value) (s : Found)
      → IsFound s
      → IsFound
          (if is_truthy v
            then (completed, s)
            else with_canonical hit name
                (company_url canonicalize_url lower str_of int_of hit name)
                (canonicalize_url (company_url canonicalize_url lower str_of int_of hit name))
                s).1
  refused-IsFound hit name v s h = elim (Bool-cases (is_truthy v)) [
    | inl e ↦ rw e h
    | inr e ↦ rw e (with_canonical-IsFound hit name _ _ s h)
  ]

  with_website-IsFound :
      (hit : Fields) (name : Text) (website : Option Value) (s : Found)
      → IsFound s
      → IsFound (with_website canonicalize_url lower str_of int_of hit name website s).1
  unfolding with_website
  with_website-IsFound hit name none s h = with_canonical-IsFound hit name _ _ s h
  with_website-IsFound hit name (some (str t)) s h = with_canonical-IsFound hit name _ _ s h
  with_website-IsFound hit name (some null) s h = refused-IsFound hit name null s h
  with_website-IsFound hit name (some (bool b)) s h = refused-IsFound hit name (bool b) s h
  with_website-IsFound hit name (some (num n)) s h = refused-IsFound hit name (num n) s h
  with_website-IsFound hit name (some (arr vs)) s h = refused-IsFound hit name (arr vs) s h
  with_website-IsFound hit name (some (obj fs)) s h = refused-IsFound hit name (obj fs) s h

  with_name-IsFound :
      (hit : Fields) (name : Option Value) (s : Found)
      → IsFound s
      → IsFound (with_name canonicalize_url lower str_of int_of hit name s).1
  unfolding with_name
  with_name-IsFound hit (some (str [])) s h = h
  with_name-IsFound hit (some (str (c ∷ name))) s h =
      with_website-IsFound hit (c ∷ name) (get "website" hit) s h
  with_name-IsFound hit none s h = h
  with_name-IsFound hit (some null) s h = h
  with_name-IsFound hit (some (bool b)) s h = h
  with_name-IsFound hit (some (num n)) s h = h
  with_name-IsFound hit (some (arr vs)) s h = h
  with_name-IsFound hit (some (obj fs)) s h = h

  process_hit-IsFound :
      (v : Value) (s : Found)
      → IsFound s
      → IsFound (process_hit canonicalize_url lower str_of int_of v s).1
  unfolding process_hit
  process_hit-IsFound (obj hit) s h = with_name-IsFound hit (get "name" hit) s h
  process_hit-IsFound null s h = h
  process_hit-IsFound (bool b) s h = h
  process_hit-IsFound (num n) s h = h
  process_hit-IsFound (str t) s h = h
  process_hit-IsFound (arr vs) s h = h

  process_hits-IsFound :
      (vs : Elements) (s : Found)
      → IsFound s
      → IsFound (process_hits canonicalize_url lower str_of int_of vs s).1
  unfolding process_hits
  process_hits-IsFound no_elements s h = h
  process_hits-IsFound (element v vs) s h =
      then_loop-IsFound (process_hit canonicalize_url lower str_of int_of v s)
        (process_hits canonicalize_url lower str_of int_of vs) (process_hit-IsFound v s h)
        (process_hits-IsFound vs)

  hits_of-IsFound :
      (found : Option Value) (s : Found)
      → IsFound s
      → IsFound (hits_of canonicalize_url lower str_of int_of found s).1
  unfolding hits_of
  hits_of-IsFound none s h = h
  hits_of-IsFound (some (arr hits)) s h = process_hits-IsFound hits s h
  hits_of-IsFound (some (str [])) s h = h
  hits_of-IsFound (some (str (c ∷ t))) s h = h
  hits_of-IsFound (some (obj end)) s h = h
  hits_of-IsFound (some (obj (field k v fs))) s h = h
  hits_of-IsFound (some null) s h = h
  hits_of-IsFound (some (bool b)) s h = h
  hits_of-IsFound (some (num n)) s h = h

  parse_payload-IsFound :
      (payload : Option Value) (s : Found)
      → IsFound s
      → IsFound (parse_payload canonicalize_url lower str_of int_of payload s).1
  unfolding parse_payload
  parse_payload-IsFound (some (obj fs)) s h = hits_of-IsFound (get "hits" fs) s h
  parse_payload-IsFound none s h = h
  parse_payload-IsFound (some null) s h = h
  parse_payload-IsFound (some (bool b)) s h = h
  parse_payload-IsFound (some (num n)) s h = h
  parse_payload-IsFound (some (str t)) s h = h
  parse_payload-IsFound (some (arr vs)) s h = h

  -- An outcome that keeps to `IsFound`.
  abbrev Finds : Result Error Found → Type 0
  Finds (ok s) = IsFound s
  Finds (raise e) = Unit

  add_candidate-IsFound :
      (c : Option StartupCandidate) (s : Found)
      → IsFound s
      → IsFound (add_candidate canonicalize_url lower str_of int_of c s)
  unfolding add_candidate
  add_candidate-IsFound none s h = h
  add_candidate-IsFound (some c) s h = elim (Bool-cases (contains s.seen c.canonical_url)) [
    | inl e ↦ rw e h
    | inr e ↦ rw e (push-IsFound c s h e)
  ]

  add_result-Finds :
      (r : Result Error (Option StartupCandidate)) (items : List Fields) (s : Found)
      → ((t : Found)
          → IsFound t
          → Finds (process_items canonicalize_url lower str_of int_of items t))
      → IsFound s
      → Finds (
          add_result canonicalize_url lower str_of int_of r s
          >>= process_items canonicalize_url lower str_of int_of items)
  unfolding add_result
  add_result-Finds (raise e) items s next h = tt
  add_result-Finds (ok c) items s next h =
      next (add_candidate canonicalize_url lower str_of int_of c s) (add_candidate-IsFound c s h)

  process_items-Finds :
      (items : List Fields) (s : Found)
      → IsFound s
      → Finds (process_items canonicalize_url lower str_of int_of items s)
  unfolding process_items
  process_items-Finds [] s h = h
  process_items-Finds (item ∷ items) s h =
      add_result-Finds (candidate_from_json_ld canonicalize_url int_of item) items s
        (process_items-Finds items) h

  parse_rest-Finds :
      (items : List Fields) (r : Ending × Found)
      → IsFound r.1
      → Finds (parse_rest canonicalize_url lower str_of int_of items r)
  unfolding parse_rest
  parse_rest-Finds items (interrupted, s) h = process_items-Finds items s h
  parse_rest-Finds items (completed, s) h = elim (Bool-cases (is_empty s.candidates)) [
    | inl e ↦ rw e (process_items-Finds items s h)
    | inr e ↦ rw e h
  ]

  -- The startups of a parse that does not raise.
  abbrev pub AreDistinct : Result Error (List StartupCandidate) → Type 0
  AreDistinct (ok cs) = IsDistinct cs
  AreDistinct (raise e) = Unit

  candidates-AreDistinct :
      (r : Result Error Found) → Finds r → AreDistinct (r >>= λ s. ok s.candidates)
  candidates-AreDistinct (ok s) h = h.distinct
  candidates-AreDistinct (raise e) h = tt

  -- The startups that a parse returns have different canonical URLs, whether they come from the hits of the JSON,
  -- from the JSON-LD of the HTML, or from both after an exception among the hits.
  pub parse-AreDistinct :
      (loads : Text → Option Value) (payload : Option Value) (calls : List Call)
      → AreDistinct (parse canonicalize_url lower str_of int_of loads payload calls)
  unfolding parse
  parse-AreDistinct loads payload calls = candidates-AreDistinct _ (
      parse_rest-Finds (feed loads calls new_parser).items
        (parse_payload canonicalize_url lower str_of int_of payload
          (record { candidates = []; seen = [] }))
        (parse_payload-IsFound payload (record { candidates = []; seen = [] })
          (record { all_seen = tt; distinct = tt })))
