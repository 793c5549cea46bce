-- ===== src/Ingest/Jobs.antt =====
-- internal/application/ingest.go: the jobs that the calls of a run put into the queue.
use firmscout.Base.{append-nil, List, [], ◌∷◌, ◌++◌, ◌≡◌, refl, ap, sym, ◌∙◌, append_assoc}
use firmscout.CheckSource.Ports.{Job}
use firmscout.Ingest.{Effect, enqueue}

module _ {Float : Type 0} where
  abbrev pub job_of : Effect Float → List Job
  job_of (enqueue j) = j ∷ []
  job_of _ = []

  abbrev pub jobs : List (Effect Float) → List Job
  jobs [] = []
  jobs (e ∷ es) = job_of e ++ jobs es

  pub jobs-append : (l k : List (Effect Float)) → jobs (l ++ k) ≡ jobs l ++ jobs k
  jobs-append [] k = refl
  jobs-append (e ∷ l) k =
      ap (λ x. job_of e ++ x) (jobs-append l k) ∙ sym (append_assoc (job_of e) (jobs l) (jobs k))

  -- One more call, which puts no job into the queue
  pub jobs-call :
      (l : List (Effect Float)) (e : Effect Float) → job_of e ≡ [] → jobs (l ++ (e ∷ [])) ≡ jobs l
  jobs-call l e h = jobs-append l (e ∷ []) ∙ ap (λ x. jobs l ++ (x ++ [])) h ∙ append-nil (jobs l)
