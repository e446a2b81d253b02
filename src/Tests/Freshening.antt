-- ===== src/Tests/Freshening.antt =====
-- The freshness gate, the watermarks and the two indices on small inputs.
use ai_internship_demo_task.Prelude.{ℕ, true, false, none, some, List, [], ◌∷◌, ◌≡◌, refl, ◌↔◌, map}
use ai_internship_demo_task.Prelude.Result.{ok}
use ai_internship_demo_task.Prelude.Eq.{string_eq, nat_eq, list_eq}
use ai_internship_demo_task.Prelude.Text.{Text, codes, strip, lstrip, rstrip, is_space, join}
use ai_internship_demo_task.Freshness.Policies.{
  DateEvidence, meta, accept, evaluate_freshness, hours, evaluate_resolved, date_confidence,
}
use ai_internship_demo_task.Freshness.Policies.Gate.{Passes, evaluate_freshness_iff}
use ai_internship_demo_task.Freshness.Dates.{
  Readers, missing, select_from, choose, parse_date, parse_text,
}
use ai_internship_demo_task.Freshness.Dates.Markup.{
  Patterns, Call, start_tag, data_text, end_tag, candidates, feed, empty, select_date, handle,
  handle_endtag, end_script, handle_data, handle_starttag, start_time, start_meta, start_script,
  get_attribute, dict_of, is_date_key, or_else,
}
use ai_internship_demo_task.Freshness.Dates.Priority.{AtLeast, tagged, select_date-AtLeast}
use ai_internship_demo_task.Freshness.Watermark
use ai_internship_demo_task.Freshness.Watermark.{get_watermark, advance_all}
use ai_internship_demo_task.Freshness.Watermark.Latest.{advance_all-get}
use ai_internship_demo_task.Freshness.Dedupe.{DedupeIndex, claim, set_add}
use ai_internship_demo_task.Prelude.Dict.{lookup, insert, contains}
use ai_internship_demo_task.Freshness.Dedupe.Claims.{accepted, New, accepted-New}
use ai_internship_demo_task.Freshness.Dedupe.Distributed.{
  answers, answers_redis, answers_redis-answers,
}

abbrev dated : DateEvidence
dated = record { published_at = some 7200000000; source = some meta; confidence = 95 }

evaluate_freshness_iff_example : ((evaluate_freshness 90000000000 24 75 dated).status ≡ accept) ↔ (
    (published : ℕ) × (dated.published_at ≡ some published) × Passes 90000000000 24 75 95 published)
evaluate_freshness_iff_example = evaluate_freshness_iff 90000000000 24 75 dated

fresh_after_23_hours : (evaluate_freshness 90000000000 24 75 dated).status ≡ accept
unfolding evaluate_freshness evaluate_resolved hours
fresh_after_23_hours = refl

-- Readers that know one text.
abbrev readers : Readers
readers = record {
  from_iso = λ t. elim t [ [] ↦ none | _ ∷ _ ↦ some 5000 ];
  from_email = λ t. none;
  ago = λ t. none;
  is_yesterday = λ t. false;
  is_month_day = λ t. false;
  strptime = λ f t. none;
  replace_year = λ a b. none;
}

abbrev patterns : Patterns
patterns = record { casefold = λ t. t; says_ago = λ t. false; published_in = λ t. none }

abbrev page : List Call
page =
    start_tag "meta" (("name", some (codes "date")) ∷ ("content", some (codes "2024-01-01")) ∷ [])
    ∷ start_tag "p" []
    ∷ data_text (codes " Hello ")
    ∷ end_tag "p"
    ∷ []

abbrev on_the_page : DateEvidence
on_the_page = record { published_at = some 5000; source = some meta; confidence = 95 }

selects_meta : select_date readers patterns page missing 90000000000 ≡ ok on_the_page
unfolding select_date select_from candidates choose parse_date parse_text feed handle handle_endtag
    end_script handle_data handle_starttag start_time start_meta start_script get_attribute lookup
    insert dict_of is_date_key or_else contains date_confidence strip lstrip rstrip is_space join
selects_meta = refl

select_date-AtLeast_example :
    AtLeast readers 90000000000 95 (candidates (feed patterns page empty) missing)
    × AtLeast readers 90000000000 95 (tagged patterns page missing)
select_date-AtLeast_example =
    select_date-AtLeast readers patterns page missing 90000000000 on_the_page selects_meta

advance_all-get_example :
    get_watermark "news"
      (advance_all (λ n. "") (("news", 3) ∷ ("jobs", 9) ∷ ("news", 2) ∷ []) Watermark.empty)
    ≡ some 3
unfolding get_watermark lookup
advance_all-get_example =
    advance_all-get (λ n. "") (("news", 3) ∷ ("jobs", 9) ∷ ("news", 2) ∷ []) Watermark.empty "news"

abbrev new_index : DedupeIndex
new_index = record { source_ids_by_url = []; content_hashes = []; has_path = false; file = none }

abbrev three_claims : List (Text × Text)
three_claims = (codes "u1", codes "h1") ∷ (codes "u1", codes "h2") ∷ (codes "u2", codes "h1") ∷ []

first_of_three : answers three_claims new_index ≡ true ∷ false ∷ false ∷ []
unfolding answers claim contains set_add
first_of_three = refl

accepted-New_example :
    New [] (map (λ (c : Text × Text). c.0) (accepted three_claims new_index))
    × New [] (map (λ (c : Text × Text). c.1) (accepted three_claims new_index))
accepted-New_example = accepted-New three_claims new_index

answers_redis-answers_example :
    answers_redis (codes "ingestion") three_claims [] ≡ answers three_claims new_index
answers_redis-answers_example =
    answers_redis-answers (codes "ingestion") three_claims new_index refl refl
