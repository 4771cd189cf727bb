-- ===== src/Lifetime.antt =====
-- An abstract view of datastore.go and objectstore.go: the life of each id of the store. An id is
-- first unused, then it may be that of a pending balloon, of a shown one, and then its balloon is gone.
pub mod Operations
pub mod Loops
pub mod Handlers
use super_mario_odyssey.Prelude.{
  ℕ, ◌≡◌, Bool, true, false, String, Option, none, some, List, ltb, if◌then◌else◌,
}
use super_mario_odyssey.Prelude.Map.{lookup}
use super_mario_odyssey.Nex.{Bytes}
use super_mario_odyssey.Balloon.{BalloonRecord, Server}
use super_mario_odyssey.Objects.{found_by, flag}

-- what of a balloon never changes
pub record Card : Type 0 where
  pub owner : ℕ
  pub size : ℕ
  pub name : String
  pub data_type : ℕ
  pub meta_binary : Bytes
  pub tags : List String
  pub created_at : ℕ
  pub slot : Option ℕ

abbrev pub card : BalloonRecord → Card
card r = record {
  owner = r.owner_id;
  size = r.size;
  name = r.name;
  data_type = r.data_type;
  meta_binary = r.meta_binary;
  tags = r.tags;
  created_at = r.created_at;
  slot = r.slot;
}

pub data Phase : Type 0 where
  unused : Phase
  pending : Card → Phase
  shown : Card → Phase
  gone : Phase

-- One move of an id, or several: a balloon comes up under an unused id, it is shown, and it goes, for good.
pub data Later : Phase → Phase → Type 0 where
  stays : {p : Phase} → Later p p
  comes : {p : Phase} → Later Phase.unused p
  appears : {c : Card} → Later (Phase.pending c) (Phase.shown c)
  goes : {p : Phase} → Later p Phase.gone

pub Later-trans : {p q r : Phase} → Later p q → Later q r → Later p r
Later-trans Later.stays m = m
Later-trans Later.comes m = Later.comes
Later-trans Later.appears Later.stays = Later.appears
Later-trans Later.appears Later.goes = Later.goes
Later-trans Later.goes Later.stays = Later.goes
Later-trans Later.goes Later.goes = Later.goes

abbrev pub phase_of_record : Bool → Card → Phase
phase_of_record true c = Phase.shown c
phase_of_record false c = Phase.pending c

-- An id without a record is gone if the counter has passed it; a record shows whatever the counter
-- says, so that an id under which one is stored is never unused.
abbrev pub phase_at : Bool → Option BalloonRecord → Phase
phase_at given (some r) = phase_of_record r.complete (card r)
phase_at given none = if given then Phase.gone else Phase.unused

-- the view of a server
abbrev pub phase_of : ℕ → Server → Phase
phase_of k s = phase_at (ltb k s.next_id) (lookup k s.records)

-- Each id has moved on or stayed, and what counted as found still does.
pub record Follows (s t : Server) : Type 0 where
  pub later : (k : ℕ) → Later (phase_of k s) (phase_of k t)
  pub found : (pid k : ℕ) → flag k (found_by pid s) ≡ true → flag k (found_by pid t) ≡ true

pub Follows-refl : (s : Server) → Follows s s
Follows-refl s = record { later = λ k. Later.stays; found = λ pid k h. h }

pub Follows-trans : {s t u : Server} → Follows s t → Follows t u → Follows s u
Follows-trans f g = record {
  later = λ k. Later-trans (f.later k) (g.later k);
  found = λ pid k h. g.found pid k (f.found pid k h);
}
