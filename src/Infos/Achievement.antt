-- ===== src/Infos/Achievement.antt =====
-- The stats record that FetchMyInfos echoes.
use super_mario_odyssey.Prelude.{ℕ, ◌≤◌, ◌≡◌, true, Option, none, some, List, arith}
use super_mario_odyssey.Prelude.Map.{lookup, values}
use super_mario_odyssey.Balloon.{BalloonRecord, Server, Env, smo_achievement_data_type}
use super_mario_odyssey.Search.Newest.{Finds, newest-Finds}
use super_mario_odyssey.Search.Pool.{In-visit}
use super_mario_odyssey.Infos.{is_achievement, my_achievement}
use super_mario_odyssey.Invariant.{IsValid, Visits}

-- A stored, completed stats record of the player.
pub record IsStats (s : Server) (client : ℕ) (r : BalloonRecord) : Type 0 where
  pub stored : lookup r.data_id s.records ≡ some r
  pub complete : r.complete ≡ true
  pub own : r.owner_id ≡ client
  pub kind : r.data_type ≡ smo_achievement_data_type

module _ (s : Server) (client : ℕ) where
  -- a newest stats record of the player, or none if there is none
  abbrev pub Echoes : Option BalloonRecord → Type 0
  Echoes none = (r : BalloonRecord) → ¬ IsStats s client r
  Echoes (some b) =
      IsStats s client b × ((r : BalloonRecord) → IsStats s client r → r.created_at ≤ b.created_at)

module _ (env : Env) (s : Server) (client : ℕ) (v : IsValid s) (visits : Visits env) where
  abbrev pub met : ℕ → List BalloonRecord
  met i = values (env.visit i s.records)

  test_of_IsStats : (r : BalloonRecord) → IsStats s client r → is_achievement client r ≡ true
  test_of_IsStats r q = ground (arith, q.complete, q.own, q.kind)

  pub echoes :
      (i : ℕ) (o : Option BalloonRecord)
      → Finds (is_achievement client) (met i) o
      → Echoes s client o
  echoes i none f = λ r q. cc (f r ((In-visit env s i r v visits).1 q.stored), test_of_IsStats r q)
  echoes i (some b) n =
      let passes = n.passes in
      (
        record {
          stored = (In-visit env s i b v visits).0 n.met;
          complete = ground arith;
          own = ground arith;
          kind = ground arith;
        },
        λ r q. n.last r ((In-visit env s i r v visits).1 q.stored) (test_of_IsStats r q),
      )

  -- On a valid server, the record that FetchMyInfos echoes is a newest completed stats record of
  -- the player, and it echoes none only if the player has none.
  pub my_achievement-Echoes : Echoes s client (my_achievement client (met 0))
  unfolding my_achievement
  my_achievement-Echoes = echoes 0 _ (newest-Finds (is_achievement client) (met 0))
