-- ===== src/Jobs/Ingestion/Replay.antt =====
-- A run over what an earlier run has seen.
use ai_internship_demo_task.Prelude.{
  ◌+◌, false, Option, none, some, List, [], ◌∷◌, ◌≡◌, refl, sym, ◌∙◌, ap, arith, subst,
}
use ai_internship_demo_task.Prelude.Result.{Result, ok, raise}
use ai_internship_demo_task.Prelude.Text.{Text}
use ai_internship_demo_task.Fetch.Client.{RawResponse}
use ai_internship_demo_task.Storage.Local.{Kind, Repository, PersistenceResult, upsert}
use ai_internship_demo_task.Storage.Local.Upserts.{IsHeld, upsert-IsHeld, upsert-keeps, upsert_old}
use ai_internship_demo_task.Storage.Objects.{
  RawDocument, Files, put, put_found, document_of, store_document,
}
use ai_internship_demo_task.Jobs.Ingestion.{
  Refusal, candidate_rejected, not_caught, Error, Mapping, Prepared, Library, Adapter, Run, Step,
  Done, store, fetch_failed, store_failed, parse_failed, skip, fail, then_step, count_result,
  persist, process_candidate, process_candidates, process_parsed, process_stored, process_response,
  process_urls, summary_of, run_job,
}

-- A step that inserts nothing when what it would insert is there: `Good` is what the state of the preparation
-- keeps to.
pub record Replayable {X : Type 0} (kind : Kind) (Good : X → Type 0) (f : Step X) : Type 0 where
  pub stays : (s : Run X) → Good s.rest → Good (f s).1.rest
  pub grows :
      (s : Run X) (record_id : Text)
      → IsHeld kind record_id s.repository
      → IsHeld kind record_id (f s).1.repository
  pub agrees : (s t : Run X) → Good s.rest → Good t.rest → (f s).0 ≡ (f t).0
  pub replays :
      (s t : Run X)
      → Good s.rest
      → Good t.rest
      → ((record_id : Text)
          → IsHeld kind record_id (f s).1.repository
          → IsHeld kind record_id t.repository)
      → (f t).1.inserted ≡ t.inserted

module _ {X : Type 0} (kind : Kind) (Good : X → Type 0) where
  skip-Replayable : Replayable kind Good skip
  unfolding skip
  skip-Replayable = record {
    stays = λ s g. g;
    grows = λ s i h. h;
    agrees = λ s t g g'. refl;
    replays = λ s t g g' h. refl;
  }

  fail-Replayable : (e : Error) → Replayable kind Good (fail e)
  unfolding fail
  fail-Replayable e = record {
    stays = λ s g. g;
    grows = λ s i h. h;
    agrees = λ s t g g'. refl;
    replays = λ s t g g' h. refl;
  }

  module _ (f : Step X) (p : Replayable kind Good f) where
    then_step-stays : (r : Result Error Done × Run X) → Good r.1.rest → Good (then_step r f).1.rest
    unfolding then_step
    then_step-stays (ok _, s) g = p.stays s g
    then_step-stays (raise e, s) g = g

    then_step-grows :
        (r : Result Error Done × Run X) (record_id : Text)
        → IsHeld kind record_id r.1.repository
        → IsHeld kind record_id (then_step r f).1.repository
    unfolding then_step
    then_step-grows (ok _, s) i h = p.grows s i h
    then_step-grows (raise e, s) i h = h

    then_step-agrees :
        (q r : Result Error Done × Run X)
        → q.0 ≡ r.0
        → Good q.1.rest
        → Good r.1.rest
        → (then_step q f).0 ≡ (then_step r f).0
    unfolding then_step
    then_step-agrees (ok _, s) (ok _, t) e g g' = p.agrees s t g g'
    then_step-agrees (ok _, s) (raise b, t) e g g' = absurd (cc)
    then_step-agrees (raise a, s) (ok _, t) e g g' = absurd (cc)
    then_step-agrees (raise a, s) (raise b, t) e g g' = e

    then_step-replays :
        (q r : Result Error Done × Run X)
        → q.0 ≡ r.0
        → Good q.1.rest
        → Good r.1.rest
        → ((record_id : Text)
            → IsHeld kind record_id (then_step q f).1.repository
            → IsHeld kind record_id r.1.repository)
        → (then_step r f).1.inserted ≡ r.1.inserted
    unfolding then_step
    then_step-replays (ok _, s) (ok _, t) e g g' h = p.replays s t g g' h
    then_step-replays (ok _, s) (raise b, t) e g g' h = refl
    then_step-replays (raise a, s) (ok _, t) e g g' h = absurd (cc)
    then_step-replays (raise a, s) (raise b, t) e g g' h = refl

  then_step-Replayable :
      (f h : Step X)
      → Replayable kind Good f
      → Replayable kind Good h
      → Replayable kind Good (λ s. then_step (f s) h)
  then_step-Replayable f h p q = record {
    stays = λ s g. then_step-stays h q (f s) (p.stays s g);
    grows = λ s i held. then_step-grows h q (f s) i (p.grows s i held);
    agrees = λ s t g g'.
        then_step-agrees h q (f s) (f t) (p.agrees s t g g') (p.stays s g) (p.stays t g');
    replays = λ s t g g' seen.
        then_step-replays h q (f s) (f t) (p.agrees s t g g') (p.stays s g) (p.stays t g')
          (λ i held. p.grows t i (seen i held))
        ∙ p.replays s t g g' (λ i held. seen i (then_step-grows h q (f s) i held));
  }

count_result-inserted :
    {X : Type 0} (mappings : List Mapping) (result : PersistenceResult) (repository : Repository)
    (s : Run X)
    → result.inserted ≡ false
    → (count_result mappings (result, repository) s).1.inserted ≡ s.inserted
unfolding count_result
count_result-inserted mappings result repository s e = rw e (omega arith)

module _ {C X : Type 0} (lib : Library) (adapter : Adapter C) (kind : Kind)
    (prepare : C → RawDocument → X → Files → Result Refusal Prepared × X × Files)
    (Good : X → Type 0)
    (kept : (c : C) (raw : RawDocument) (x : X) (files : Files)
      → Good x
      → Good (prepare c raw x files).1)
    (steady : (c : C) (raw : RawDocument) (x y : X) (files others : Files)
      → Good x
      → Good y
      → (prepare c raw x files).0 ≡ (prepare c raw y others).0) where
  persist-stays :
      (o : Result Refusal Prepared) (s : Run X)
      → Good s.rest
      → Good (persist lib adapter kind prepare o s).1.rest
  unfolding persist count_result
  persist-stays (raise candidate_rejected) s g = g
  persist-stays (raise not_caught) s g = g
  persist-stays (ok p) s g = g

  persist-grows :
      (o : Result Refusal Prepared) (s : Run X) (record_id : Text)
      → IsHeld kind record_id s.repository
      → IsHeld kind record_id (persist lib adapter kind prepare o s).1.repository
  unfolding persist count_result
  persist-grows (raise candidate_rejected) s i h = h
  persist-grows (raise not_caught) s i h = h
  persist-grows (ok p) s i h =
      upsert-keeps lib.dumps lib.loads kind p.record_id p.payload s.repository i h

  persist-agrees :
      (o : Result Refusal Prepared) (s t : Run X)
      → (persist lib adapter kind prepare o s).0 ≡ (persist lib adapter kind prepare o t).0
  unfolding persist count_result
  persist-agrees (raise candidate_rejected) s t = refl
  persist-agrees (raise not_caught) s t = refl
  persist-agrees (ok p) s t = refl

  persist-replays :
      (o : Result Refusal Prepared) (s t : Run X)
      → ((record_id : Text)
          → IsHeld kind record_id (persist lib adapter kind prepare o s).1.repository
          → IsHeld kind record_id t.repository)
      → (persist lib adapter kind prepare o t).1.inserted ≡ t.inserted
  unfolding persist count_result upsert
  persist-replays (raise candidate_rejected) s t h = refl
  persist-replays (raise not_caught) s t h = refl
  persist-replays (ok p) s t h =
      let answer = upsert lib.dumps lib.loads kind p.record_id p.payload t.repository in
      let (old, e) =
        h p.record_id (upsert-IsHeld lib.dumps lib.loads kind p.record_id p.payload s.repository) in
      count_result-inserted p.mappings answer.0 answer.1 t
        (upsert_old lib.dumps lib.loads kind p.record_id p.payload old t.repository e).0

  -- The run when a candidate is prepared.
  abbrev prepared_run : RawDocument → C → Run X → Run X
  prepared_run raw c s = record s {
    parsed = s.parsed + 1;
    rest = (prepare c raw s.rest s.files).1;
    files = (prepare c raw s.rest s.files).2;
  }

  process_candidate-Replayable :
      (raw : RawDocument) (c : C)
      → Replayable kind Good (process_candidate lib adapter kind prepare raw c)
  unfolding process_candidate
  process_candidate-Replayable raw c = record {
    stays = λ s g.
        persist-stays (prepare c raw s.rest s.files).0 (prepared_run raw c s)
          (kept c raw s.rest s.files g);
    grows = λ s i h. persist-grows (prepare c raw s.rest s.files).0 (prepared_run raw c s) i h;
    agrees = λ s t g g'.
        ap
          (λ (o : Result Refusal Prepared).
            (persist lib adapter kind prepare o (prepared_run raw c s)).0)
          (steady c raw s.rest t.rest s.files t.files g g')
        ∙ persist-agrees (prepare c raw t.rest t.files).0 (prepared_run raw c s)
            (prepared_run raw c t);
    replays = λ s t g g' h.
        subst
          (λ (o : Result Refusal Prepared).
            (persist lib adapter kind prepare o (prepared_run raw c t)).1.inserted ≡ t.inserted)
          (steady c raw s.rest t.rest s.files t.files g g')
          (persist-replays (prepare c raw s.rest s.files).0 (prepared_run raw c s)
            (prepared_run raw c t) h);
  }

  process_candidates-Replayable :
      (raw : RawDocument) (cs : List C)
      → Replayable kind Good (process_candidates lib adapter kind prepare raw cs)
  unfolding process_candidates
  process_candidates-Replayable raw [] = skip-Replayable kind Good
  process_candidates-Replayable raw (c ∷ cs) =
      then_step-Replayable kind Good (process_candidate lib adapter kind prepare raw c)
        (process_candidates lib adapter kind prepare raw cs) (process_candidate-Replayable raw c)
        (process_candidates-Replayable raw cs)

  process_parsed-Replayable :
      (raw : RawDocument) (found : Option (List C))
      → Replayable kind Good (process_parsed lib adapter kind prepare raw found)
  unfolding process_parsed
  process_parsed-Replayable raw none = fail-Replayable kind Good parse_failed
  process_parsed-Replayable raw (some cs) = process_candidates-Replayable raw cs

  after_write-Replayable :
      (f : Step X) (write : Files → Files)
      → Replayable kind Good f
      → Replayable kind Good (λ s. f (record s { files = write s.files }))
  after_write-Replayable f write p = record {
    stays = λ s g. p.stays (record s { files = write s.files }) g;
    grows = λ s i h. p.grows (record s { files = write s.files }) i h;
    agrees = λ s t g g'.
        p.agrees (record s { files = write s.files }) (record t { files = write t.files }) g g';
    replays = λ s t g g' h.
        p.replays (record s { files = write s.files }) (record t { files = write t.files }) g g' h;
  }

  process_stored-Replayable :
      (r : RawResponse) (canonical_url : Option Text)
      → Replayable kind Good (λ s.
        process_stored lib adapter kind prepare r
          (put_found lib.sha256 lib.canonicalize_url lib.day_path lib.media_type lib.metadata
            lib.pid canonical_url adapter.source_id r s.files)
          s)
  unfolding process_stored put_found
  process_stored-Replayable r none = fail-Replayable kind Good store_failed
  process_stored-Replayable r (some canonical_url) =
      let raw =
        document_of lib.sha256 lib.canonicalize_url lib.day_path lib.media_type lib.metadata lib.pid
          adapter.source_id r canonical_url in
      after_write-Replayable (process_parsed lib adapter kind prepare raw (adapter.parse r))
        (store_document lib.sha256 lib.canonicalize_url lib.day_path lib.media_type lib.metadata
          lib.pid adapter.source_id r raw)
        (process_parsed-Replayable raw (adapter.parse r))

  process_response-Replayable :
      (found : Option RawResponse)
      → Replayable kind Good (process_response lib adapter kind prepare found)
  unfolding process_response store put
  process_response-Replayable none = fail-Replayable kind Good fetch_failed
  process_response-Replayable (some r) =
      process_stored-Replayable r (lib.canonicalize_url r.response_url)

  process_urls-Replayable :
      (urls : List Text) → Replayable kind Good (process_urls lib adapter kind prepare urls)
  unfolding process_urls
  process_urls-Replayable [] = skip-Replayable kind Good
  process_urls-Replayable (url ∷ urls) =
      then_step-Replayable kind Good (process_response lib adapter kind prepare (adapter.fetch url))
        (process_urls lib adapter kind prepare urls)
        (process_response-Replayable (adapter.fetch url)) (process_urls-Replayable urls)

  summary_of-run : (r : Result Error Done × Run X) → (summary_of lib adapter kind prepare r).1 ≡ r.1
  unfolding summary_of
  summary_of-run (ok _, s) = refl
  summary_of-run (raise e, s) = refl

  -- A run inserts nothing after another of the same job: the adapter gives the same again, what the job
  -- prepares from a candidate and its raw document does not depend on what the job keeps (`steady`, for the
  -- states that `Good` holds of, which the preparation does not leave by `kept`), and the repository has
  -- all that the first run left. Neither run needs to return a summary.
  pub run_job_twice :
      (s t : Run X)
      → Good s.rest
      → Good t.rest
      → ((record_id : Text)
          → IsHeld kind record_id (run_job lib adapter kind prepare s).1.repository
          → IsHeld kind record_id t.repository)
      → (run_job lib adapter kind prepare t).1.inserted ≡ 0
  unfolding run_job
  run_job_twice s t g g' h =
      let first = record s { parsed = 0; inserted = 0; duplicates = 0; rejected = 0 } in
      let again = record t { parsed = 0; inserted = 0; duplicates = 0; rejected = 0 } in
      let p = process_urls-Replayable adapter.discover in
      ap (λ (u : Run X). u.inserted)
        (summary_of-run (process_urls lib adapter kind prepare adapter.discover again))
      ∙ p.replays first again g g' (λ i held. h i (
          subst (λ (u : Run X). IsHeld kind i u.repository)
            (sym (summary_of-run (process_urls lib adapter kind prepare adapter.discover first)))
            held))
