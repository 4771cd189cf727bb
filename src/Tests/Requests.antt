-- ===== src/Tests/Requests.antt =====
-- The theorems about ratings, buffers, names and the lists of answers, at small inputs.
use super_mario_odyssey.Prelude.{
  Option, ℕ, ◌≡◌, refl, some, List, [], ◌∷◌, ◌++◌, arith, if◌then◌else◌,
}
use super_mario_odyssey.Prelude.Map.{lookup, values, Distinct}
use mathlib.Core.List.Permᴰ
use super_mario_odyssey.Balloon.{BalloonRecord, NameCacheEntry}
use super_mario_odyssey.Nex.{Bytes}
use super_mario_odyssey.Rates.{RatingTarget, rate_all}
use super_mario_odyssey.Rates.Sums.{IsRated, rate_all-IsRated, codes, results-rate_all}
use super_mario_odyssey.Buffers.{BufferQueueParam, add_buffers, clear_buffers, queue_of}
use super_mario_odyssey.Buffers.Queues.{
  sent_to, any_names, queue_of-add_buffers, queue_of-clear_buffers,
}
use super_mario_odyssey.Names.Cache.{IsAnswered, disp_name-IsAnswered}
use super_mario_odyssey.Balloon.{Server, BalloonRecord}
use super_mario_odyssey.Invariant.{IsValid}
use super_mario_odyssey.Infos.Owners.{Shows, owner_snap-Echoes}
use super_mario_odyssey.Search.{matches, no_owners, owner_snap}
use super_mario_odyssey.Search.Matches.{IsTop, matches-IsTop}
use super_mario_odyssey.Infos.{my_achievement}
use super_mario_odyssey.Infos.Achievement.{Echoes, my_achievement-Echoes}
use super_mario_odyssey.Presence.{report_presence, Seen}
use super_mario_odyssey.Presence.Active.{IsReport, report_presence-IsReport}
use super_mario_odyssey.Tests.Tape.{tape_nex}
use super_mario_odyssey.Tests.World.{env, env-Visits, balloon, server, server-IsValid}

-- one rating of the balloon 1 and one of an id without a record
abbrev pairs : List (RatingTarget × ℕ)
pairs = (record { data_id = 1; slot = 2 }, 3) ∷ (record { data_id = 60; slot = 0 }, 1) ∷ []

rate_all-IsRated_example :
    (r : BalloonRecord) × (lookup 1 (rate_all pairs server.records).1 ≡ some r)
    × IsRated 1 pairs balloon r
unfolding lookup
rate_all-IsRated_example =
    rate_all-IsRated 1 pairs server.records balloon refl (omega arith) (omega arith)

results-rate_all_example : (rate_all pairs server.records).0.1 ≡ codes server.records pairs
results-rate_all_example = results-rate_all pairs server.records

-- the slots 2 and 258 are one queue
abbrev queue_params : List BufferQueueParam
queue_params =
    record { data_id = 1; slot = 2 }
    ∷ record { data_id = 60; slot = 2 }
    ∷ record { data_id = 1; slot = 258 }
    ∷ []

abbrev poses : List Bytes
poses = (1 ∷ []) ∷ (2 ∷ []) ∷ (3 ∷ []) ∷ []

queue_of-add_buffers_example :
    queue_of 1 2 (add_buffers queue_params poses server.records).1
    ≡ queue_of 1 2 server.records ++ sent_to 1 2 queue_params poses
unfolding lookup
queue_of-add_buffers_example = queue_of-add_buffers 1 2 queue_params poses server.records (λ e. cc)

queue_of-clear_buffers_example :
    queue_of 1 2 (clear_buffers queue_params server.records).1
    ≡ (if any_names 1 2 queue_params then [] else queue_of 1 2 server.records)
queue_of-clear_buffers_example = queue_of-clear_buffers 1 2 queue_params server.records

abbrev cached : NameCacheEntry
cached = record { name = "Cappy"; at = 4_000_000_000 }

disp_name-IsAnswered_example : IsAnswered env 7 ((7, cached) ∷ [])
disp_name-IsAnswered_example = disp_name-IsAnswered env 7 ((7, cached) ∷ [])

-- a server with a stats record of the player 7
abbrev stats_server : Server
stats_server = record server { records = (1, record balloon { data_type = 200 }) ∷ [] }

stats_server-IsValid : IsValid stats_server
unfolding lookup
stats_server-IsValid = record {
  saved_fits = tt;
  distinct = (refl, tt);
  keyed = λ k r h. ground arith;
  below = λ k r h. ground arith;
  found_below = λ pid k h. cc;
  foreign = λ pid k r f h. cc;
}

owner_snap-Echoes_example :
    (best : Option BalloonRecord) × Echoes stats_server 7 best
    × Shows 7 best (owner_snap (values (env.visit 1 stats_server.records)) no_owners)
owner_snap-Echoes_example = owner_snap-Echoes env stats_server 7 1 stats_server-IsValid env-Visits

matches-IsTop_example : IsTop 13 server (matches 13 (values (env.visit 0 server.records)))
matches-IsTop_example = matches-IsTop env server 13 server-IsValid env-Visits

my_achievement-Echoes_example :
    Echoes server 7 (my_achievement 7 (values (env.visit 0 server.records)))
my_achievement-Echoes_example = my_achievement-Echoes env server 7 server-IsValid env-Visits

abbrev seen : Seen
seen = (7, 1) ∷ (8, 70_000_000_000) ∷ []

seen-Distinct : Distinct seen
unfolding lookup
seen-Distinct = (refl, (refl, tt))

report_presence-IsReport_example :
    IsReport 80_000_000_000 seen
      (report_presence 80_000_000_000 (λ m. m) seen).1
      (report_presence 80_000_000_000 (λ m. m) seen).0
report_presence-IsReport_example =
    report_presence-IsReport 80_000_000_000 (λ m. m) seen seen-Distinct (Permᴰ.refl seen)
