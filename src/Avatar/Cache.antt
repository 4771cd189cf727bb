-- ===== src/Avatar/Cache.antt =====
-- avatar.go: a picture is made once in five minutes.
use super_mario_odyssey.Prelude.{ℕ, String, length}
use super_mario_odyssey.Prelude.Text.{TextMap}
use super_mario_odyssey.Nex.{Bytes}
use super_mario_odyssey.Avatar.{AvatarEnv, AvatarEntry, AvatarReply, avatar_key}

module _ (env : AvatarEnv) (pid size : ℕ) (cache : TextMap AvatarEntry) (jpeg : Bytes) where
  abbrev key : String
  key = avatar_key pid size

  abbrev entry : AvatarEntry
  entry = record { jpeg = jpeg; at = env.now }

-- The reply that a picture makes.
abbrev pub reply_of : Bytes → AvatarReply
reply_of jpeg = record { content_length = length jpeg; body = jpeg }
