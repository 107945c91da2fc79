-- ===== src/Recommendation/Log.antt =====
-- The timelines of src/planagent/services/recommendations.py as logs: to a client, the service is a
-- log of drafts for each session, whose entries are numbered from one.
use ming_jian.Base.{
  ℕ, ◌+◌, ◌≤◌, String, ◌≡◌, refl, ap, ◌∙◌, List, [], ◌∷◌, Option, none, some, arith, ◌==◌, eq_iff,
  if◌then◌else◌, any_of, keep_if, take, length, Bool-cases, inl, inr,
}
use mathlib.Core.Path.{subst}
use text.Mathlib.TextPositions.{eq_refl}
use ming_jian.Recommendation.{
  Draft, RecommendationVersion, Timeline, new_record, of_session, max_version, next_version_number,
  create_version, insert_desc, sort_desc, list_versions,
}

-- An entry: when it was made, and the draft.
abbrev pub Entry : Type 0
Entry = ℕ × Draft

-- Each session's entries, the newest first.
abbrev pub Logs : Type 0
Logs = String → List Entry

-- The entries as rows, numbered from one at the end.
abbrev pub numbered : String → List Entry → List RecommendationVersion
numbered i [] = []
numbered i ((now, d) ∷ es) = new_record now i (length es + 1) d ∷ numbered i es

pub data Call : Type 0 where
  creates : ℕ → String → Draft → Call
  lists : String → ℕ → Call

-- What a call answers: a new version or the error, or the versions listed.
pub data Answer : Type 0 where
  created : Option RecommendationVersion → Answer
  listed : List RecommendationVersion → Answer

-- The service, call by call.
unfoldable pub serve : List Call → Timeline → List Answer
serve [] db = []
serve (creates now i d ∷ cs) db = let r = create_version now i d db in created r.0 ∷ serve cs r.1
serve (lists i limit ∷ cs) db = listed (list_versions i limit db) ∷ serve cs db

abbrev pub extend : ℕ → String → Draft → Logs → Logs
extend now i d logs k = if i == k then (now, d) ∷ logs k else logs k

-- The abstract service over the logs, for the sessions that there are.
unfoldable pub serve_logs : List String → List Call → Logs → List Answer
serve_logs sessions [] logs = []
serve_logs sessions (creates now i d ∷ cs) logs =
    let made =
      created (some (new_record now i (length (logs i) + 1) d))
      ∷ serve_logs sessions cs (extend now i d logs) in
    let refused = created none ∷ serve_logs sessions cs logs in
    if any_of (λ s. s == i) sessions then made else refused
serve_logs sessions (lists i limit ∷ cs) logs =
    listed (take limit (numbered i (logs i))) ∷ serve_logs sessions cs logs

-- The table holds the logs.
abbrev pub Holds : Logs → Timeline → Type 0
Holds logs db = (k : String) → keep_if (of_session k) db.versions ≡ numbered k (logs k)

max_version-keep_if :
    (i : String) (vs : List RecommendationVersion)
    → max_version i (keep_if (of_session i) vs) ≡ max_version i vs
max_version-keep_if i [] = refl
max_version-keep_if i (v ∷ vs) = ground (arith, max_version-keep_if i vs)

max_version-numbered : (i : String) (es : List Entry) → max_version i (numbered i es) ≡ length es
max_version-numbered i [] = refl
max_version-numbered i ((now, d) ∷ es) = ground (arith, max_version-numbered i es, eq_iff i i)

insert_desc-numbered :
    (i : String) (v : RecommendationVersion) (es : List Entry)
    → length es ≤ v.version_number
    → insert_desc v (numbered i es) ≡ v ∷ numbered i es
insert_desc-numbered i v [] le = refl
insert_desc-numbered i v ((now, d) ∷ es) le = ground arith

sort_desc-numbered : (i : String) (es : List Entry) → sort_desc (numbered i es) ≡ numbered i es
sort_desc-numbered i [] = refl
sort_desc-numbered i ((now, d) ∷ es) =
    rw (sort_desc-numbered i es) (insert_desc-numbered i _ es (omega arith))

next-Holds :
    (logs : Logs) (i : String) (db : Timeline)
    → Holds logs db
    → next_version_number i db ≡ length (logs i) + 1
next-Holds logs i db h = omega (
  arith,
  max_version-keep_if i db.versions,
  ap (max_version i) (h i) ∙ max_version-numbered i (logs i),
)

create-Holds_self :
    (logs : Logs) (now : ℕ) (i : String) (d : Draft) (db : Timeline)
    → Holds logs db
    → keep_if (of_session i) (new_record now i (length (logs i) + 1) d ∷ db.versions)
      ≡ numbered i (extend now i d logs i)
create-Holds_self logs now i d db h =
    rw (eq_refl i) (ap (λ vs. new_record now i (length (logs i) + 1) d ∷ vs) (h i))

create-Holds :
    (logs : Logs) (now : ℕ) (i : String) (d : Draft) (db : Timeline)
    → Holds logs db
    → Holds
        (extend now i d logs)
        (record db { versions = new_record now i (length (logs i) + 1) d ∷ db.versions })
create-Holds logs now i d db h k = elim (Bool-cases (i == k)) [
  | inl same ↦
      subst
        (λ x.
          keep_if (of_session x) (new_record now i (length (logs i) + 1) d ∷ db.versions)
          ≡ numbered x (extend now i d logs x))
        ((eq_iff i k).0 same) (create-Holds_self logs now i d db h)
  | inr other ↦ rw other (h k)
]

list_versions-Holds :
    (logs : Logs) (i : String) (limit : ℕ) (db : Timeline)
    → Holds logs db
    → list_versions i limit db ≡ take limit (numbered i (logs i))
unfolding list_versions
list_versions-Holds logs i limit db h =
    ap (λ vs. take limit (sort_desc vs)) (h i) ∙ ap (take limit) (sort_desc-numbered i (logs i))

serve-Holds :
    (cs : List Call) (logs : Logs) (db : Timeline)
    → Holds logs db
    → serve cs db ≡ serve_logs db.sessions cs logs
unfolding serve serve_logs create_version
serve-Holds [] logs db h = refl
serve-Holds (creates now i d ∷ cs) logs db h =
    elim (Bool-cases (any_of (λ s. s == i) db.sessions)) [
      | inl known ↦ rw known (
          rw (next-Holds logs i db h) (
            ap
              (λ (rest : List Answer).
                created (some (new_record now i (length (logs i) + 1) d)) ∷ rest)
              (serve-Holds cs (extend now i d logs)
                (record db { versions = new_record now i (length (logs i) + 1) d ∷ db.versions })
                (create-Holds logs now i d db h))))
      | inr unknown ↦
          rw unknown (ap (λ (rest : List Answer). created none ∷ rest) (serve-Holds cs logs db h))
    ]
serve-Holds (lists i limit ∷ cs) logs db h =
    ap (λ (vs : List RecommendationVersion). listed vs ∷ serve cs db)
      (list_versions-Holds logs i limit db h)
    ∙ ap (λ (rest : List Answer). listed (take limit (numbered i (logs i))) ∷ rest)
        (serve-Holds cs logs db h)

-- From an empty table, every series of calls is answered as by a log for each session: a new
-- version gets the number after the last one, an unknown session is the error and changes nothing,
-- and a listing is the newest entries, the latest number first.
pub serves_logs :
    (cs : List Call) (db : Timeline)
    → db.versions ≡ []
    → serve cs db ≡ serve_logs db.sessions cs (λ k. [])
serves_logs cs db e = serve-Holds cs (λ k. []) db (λ k. ap (keep_if (of_session k)) e)
