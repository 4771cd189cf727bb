-- ===== src/Tests/Witnesses.antt =====
-- The theorems about the store and the hunt, at the small world of `World`.
use super_mario_odyssey.Prelude.{ℕ, ◌≤◌, ◌≡◌, ◌↔◌, ◌⊎◌, refl, true, some, [], ◌∷◌, arith, length}
use super_mario_odyssey.Prelude.Map.{lookup, values}
use super_mario_odyssey.Prelude.Member.{In}
use super_mario_odyssey.Nex.{Request}
use super_mario_odyssey.Objects.{found_by}
use super_mario_odyssey.Posts.{post_meta_binary, new_record}
use super_mario_odyssey.Posts.Replace.{
  Owns, IsOnly, IsKept, post_meta_binary-keeps, post_meta_binary-IsOnly,
}
use super_mario_odyssey.Search.{candidates, split_into_sets}
use super_mario_odyssey.Search.Pool.{IsCandidate, In-candidates}
use super_mario_odyssey.Search.Sets.{IsDealt, split_into_sets-IsDealt, length-split_into_sets_cases}
use super_mario_odyssey.Infos.{my_balloons}
use super_mario_odyssey.Infos.Mine.{IsMine, my_balloons-IsMine}
use super_mario_odyssey.Search.Matches.{NewestFirst}
use super_mario_odyssey.DataStore.{data_store_handler}
use super_mario_odyssey.Invariant.{IsValid}
use super_mario_odyssey.Invariant.Handlers.{data_store_handler-IsValid}
use super_mario_odyssey.Machine.{here, next, rmc, flush, restart, step}
use super_mario_odyssey.Balloon.{Server}
use super_mario_odyssey.Wire.{on_params, read_struct_header}
use super_mario_odyssey.Posts.{complete_post, ds_complete_post_object}
use super_mario_odyssey.Persist.{FileWrite, ds_flush, ds_load, boot}
use super_mario_odyssey.Persist.Restart.{
  restarted, flush_and_restart, lookup-flush_and_restart, restart-IsValid,
}
use super_mario_odyssey.Invariant.Operations.{same-IsValid}
use super_mario_odyssey.Machine.Runs.{Reach-IsValid}
use super_mario_odyssey.Tests.Tape.{tape_nex}
use super_mario_odyssey.Tests.World.{
  config, env, env-Visits, placer, finder, request, cascade, balloon, server, server-IsValid,
}

-- CompletePostObject of the balloon 1, without success
abbrev failed_post : Request
failed_post = request 26 (0 ∷ 2 ∷ 1 ∷ 0 ∷ [])

data_store_handler-IsValid_example :
    IsValid (data_store_handler config env placer failed_post server).1
data_store_handler-IsValid_example =
    data_store_handler-IsValid config env placer failed_post server (omega arith) server-IsValid

abbrev refused : Server
refused = step config (rmc env placer failed_post) server

abbrev flushed : Server
flushed = step config (flush env FileWrite.whole) refused

next_refused : refused.next_id ≡ 2
unfolding step data_store_handler ds_complete_post_object on_params read_struct_header complete_post
    lookup
next_refused = refl

next_flushed : flushed.next_id ≡ 2
unfolding step data_store_handler ds_complete_post_object on_params read_struct_header complete_post
    lookup ds_flush
next_flushed = refl

Reach-IsValid_example : IsValid (step config (restart env) flushed)
Reach-IsValid_example = Reach-IsValid config server-IsValid (
    next (restart env) flushed
      (next (flush env FileWrite.whole) refused
        (next (rmc env placer failed_post) server here tt (omega arith)) env-Visits
        (omega (arith, next_refused)))
      tt (omega (arith, next_flushed)))

-- PostMetaBinary of a balloon, by the finder
abbrev meta_post : Request
meta_post = request 21 (
    0 ∷ 22 ∷ 3 ∷ 0 ∷ 13 ∷ 1 ∷ 9 ∷ 0 ∷ 2 ∷ 0 ∷ 0 ∷ 0 ∷ 2 ∷ 0 ∷ 0 ∷ 0 ∷ 0 ∷ 0 ∷ 0 ∷ 0 ∷ 0 ∷ 2 ∷ 65535
    ∷ 0 ∷ [])

abbrev posted_server : Server
posted_server = step config (rmc env finder meta_post) refused

restart-IsValid_example : IsValid (ds_load env (boot server))
restart-IsValid_example = restart-IsValid env server server-IsValid

abbrev changed_server : Server
changed_server = record server { dirty = true }

lookup-flush_and_restart_example :
    lookup 1 (flush_and_restart env env changed_server).records ≡ some (restarted env.wall balloon)
unfolding lookup
lookup-flush_and_restart_example =
    lookup-flush_and_restart env env changed_server
      (same-IsValid server _ server-IsValid refl refl refl refl) env-Visits refl 1

unique_balloon : (i j : ℕ) → Owns server 7 13 i → Owns server 7 13 j → i ≡ j
unfolding lookup
unique_balloon i j o q = ground (arith, o.stored, q.stored)

post_meta_binary-IsOnly_example :
    IsOnly env placer failed_post cascade server server-IsValid env-Visits (omega arith) 1
post_meta_binary-IsOnly_example =
    post_meta_binary-IsOnly env placer failed_post cascade server server-IsValid env-Visits
      (omega arith) (omega arith) unique_balloon 1

-- the placer posts again, and the old balloon goes
post_meta_binary-keeps_example :
    (lookup 2 (post_meta_binary env placer failed_post cascade server).1.records
      ≡ some (new_record env 2 7 cascade true))
    × IsKept env placer failed_post cascade server server-IsValid env-Visits (omega arith) 1
post_meta_binary-keeps_example =
    post_meta_binary-keeps env placer failed_post cascade server server-IsValid env-Visits
      (omega arith) 1

In-candidates_example :
    In balloon (candidates 8 13 (found_by 8 server) (values (env.visit 0 server.records)))
    ↔ (lookup 1 server.records ≡ some balloon) × IsCandidate server 8 13 balloon
In-candidates_example = In-candidates env server 8 13 balloon server-IsValid env-Visits

my_balloons-IsMine_example :
    NewestFirst (my_balloons 7 (13 ∷ []) (values (env.visit 0 server.records)))
    × (In balloon (my_balloons 7 (13 ∷ []) (values (env.visit 0 server.records)))
        ↔ (lookup 1 server.records ≡ some balloon) × IsMine 7 (13 ∷ []) balloon)
my_balloons-IsMine_example =
    my_balloons-IsMine env server 7 (13 ∷ []) balloon server-IsValid env-Visits

split_into_sets-IsDealt_example :
    IsDealt {A = ℕ} (10 ∷ 11 ∷ 12 ∷ []) 2 (split_into_sets {A = ℕ} (10 ∷ 11 ∷ 12 ∷ []) 2)
split_into_sets-IsDealt_example = split_into_sets-IsDealt {A = ℕ} (10 ∷ 11 ∷ 12 ∷ []) 2

length-split_into_sets_cases_example :
    (length (split_into_sets {A = ℕ} (10 ∷ 11 ∷ []) 3) ≤ 3)
    × (length (split_into_sets {A = ℕ} (10 ∷ 11 ∷ []) 3) ≤ length {A = ℕ} (10 ∷ 11 ∷ []))
    × ((length (split_into_sets {A = ℕ} (10 ∷ 11 ∷ []) 3) ≡ 3)
        ⊎ (length (split_into_sets {A = ℕ} (10 ∷ 11 ∷ []) 3) ≡ length {A = ℕ} (10 ∷ 11 ∷ [])))
length-split_into_sets_cases_example =
    length-split_into_sets_cases {A = ℕ} (10 ∷ 11 ∷ []) 3 (omega arith) (omega arith)
