-- ===== src/Objects/Tokens.antt =====
-- The tokens of the object host: what one opens, and for how long.
use text.Mathlib.TextPositions.{eq_refl}
use super_mario_odyssey.Prelude.{
  ℕ, ◌+◌, ◌≤◌, ◌≡◌, ◌≢◌, ◌⊎◌, refl, ap, ◌∙◌, Bool, true, false, String, some, [], ◌∷◌, arith, ◌==◌,
  inl, inr, Bool-cases, Option-cases, ==_iff,
}
use super_mario_odyssey.Prelude.Map.{lookup, lookup-insert}
use super_mario_odyssey.Prelude.Text.{
  TextMap, text_eq, lookup_text, insert_text, lookup_text-insert_text, hex_encode,
}
use super_mario_odyssey.Nex.{Bytes}
use super_mario_odyssey.Balloon.{ObjectToken, Server, Env}
use super_mario_odyssey.Objects.{
  object_token_ttl, is_expired, sweep, new_object_token, HttpMethod, HttpRequest, upload_object,
  download_object, credit_find, dispatch_object, token_for, serve_object, content,
  mark_balloon_found,
}

lookup_text-sweep :
    (now : ℕ) (k : String) (t : ObjectToken) (m : TextMap ObjectToken)
    → lookup_text k m ≡ some t
    → is_expired now t ≡ false
    → lookup_text k (sweep now m) ≡ some t
unfolding lookup_text sweep
lookup_text-sweep now k t [] e h = e
lookup_text-sweep now k t ((j, x) ∷ m) e h = elim (Bool-cases (text_eq j k)) [
  | inl same ↦ let it : some x ≡ some t = rw same at e in ground (arith, it, same)
  | inr other ↦ elim (Bool-cases (is_expired now x)) [
    | inl old ↦ rw old (lookup_text-sweep now k t m (rw other at e) h)
    | inr young ↦ rw (young, other) (lookup_text-sweep now k t m (rw other at e) h)
  ]
]

-- the token that a call of newObjectToken stores
abbrev pub issued : Env → ℕ → ℕ → Bool → ObjectToken
issued env data_id requester_id upload = record {
  data_id = data_id;
  requester_id = requester_id;
  upload = upload;
  expires = env.wall + object_token_ttl;
}

pub token_for-new_object_token :
    (env : Env) (data_id requester_id now : ℕ) (upload : Bool) (req : HttpRequest) (s : Server)
    → now ≤ env.wall + object_token_ttl
    → req.token ≡ (new_object_token env data_id requester_id upload s).0
    → token_for now req data_id (new_object_token env data_id requester_id upload s).1
      ≡ some (issued env data_id requester_id upload)
unfolding new_object_token token_for
token_for-new_object_token env data_id requester_id now upload req s fresh named =
    let tok = hex_encode env.random in
    let t = issued env data_id requester_id upload in
    let stored : lookup_text tok (insert_text tok t s.tokens) ≡ some t =
      simp (lookup_text-insert_text, eq_refl) in
    let kept =
      lookup_text-sweep env.wall tok t (insert_text tok t s.tokens) stored (ground arith) in
    let found =
      ap (λ k. lookup_text k (sweep env.wall (insert_text tok t s.tokens))) named ∙ kept in
    rw (found, token_for) (ground arith)

-- A token that the host accepts is stored, is for the object asked for and has not expired.
pub record Opens (now : ℕ) (req : HttpRequest) (s : Server) (k : ℕ) (t : ObjectToken) : Type 0 where
  pub asked : req.object_id ≡ some k
  pub stored : lookup_text req.token s.tokens ≡ some t
  pub bound : t.data_id ≡ k
  pub fresh : now ≤ t.expires

token_for-Opens :
    (now : ℕ) (req : HttpRequest) (k : ℕ) (s : Server) (t : ObjectToken)
    → req.object_id ≡ some k
    → token_for now req k s ≡ some t
    → Opens now req s k t
unfolding token_for
token_for-Opens now req k s t asked e = elim (Option-cases (lookup_text req.token s.tokens)) [
  | inl none_stored ↦ absurd (ground (arith, none_stored, e))
  | inr (x, stored) ↦ ground (arith, stored, e)
]

-- What a request to the host gives away and changes, by the token that it carries.
module _ (now : ℕ) (req : HttpRequest) (s : Server) where
  -- A served content is that of the object of a download token.
  pub record Serves (b : Bytes) : Type 0 where
    pub k : ℕ
    pub t : ObjectToken
    pub opens : Opens now req s k t
    pub downloads : t.upload ≡ false
    pub is_blob : lookup k s.blobs ≡ some b

  -- A changed file is that of an upload token, and it has the bytes that arrived.
  pub record Writes (k : ℕ) : Type 0 where
    pub t : ObjectToken
    pub opens : Opens now req s k t
    pub uploads : t.upload ≡ true
    pub is_upload : (req.method ≡ HttpMethod.put) ⊎ (req.method ≡ HttpMethod.post)
    pub holds : lookup k (serve_object now req s).1.blobs ≡ some req.received

  dispatch_content :
      (m : HttpMethod) (t : ObjectToken) (k : ℕ) (b : Bytes)
      → (dispatch_object m req t k s).0 ≡ content b
      → (t.upload ≡ false) × (lookup k s.blobs ≡ some b)
  unfolding dispatch_object upload_object download_object
  dispatch_content HttpMethod.put t k b h = ground arith
  dispatch_content HttpMethod.post t k b h = ground arith
  dispatch_content HttpMethod.get t k b h = ground arith
  dispatch_content HttpMethod.other t k b h = cc

  -- If the object host answers with a content, then the request names an object and carries a
  -- stored download token for that object which has not expired, and the content is that object's.
  pub serve_object-Serves : (b : Bytes) → (serve_object now req s).0 ≡ content b → Serves b
  unfolding serve_object
  serve_object-Serves b h = elim (Option-cases req.object_id) [
    | inl e ↦ absurd (ground (arith, e))
    | inr (k, e) ↦ elim (Option-cases (token_for now req k s)) [
      | inl none_open ↦ absurd (ground (arith, e, none_open))
      | inr (t, o) ↦
          let (d, at) = dispatch_content req.method t k b (rw (e, serve_object, o) at h) in
          record {
            k = k;
            t = t;
            opens = token_for-Opens now req k s t e o;
            downloads = d;
            is_blob = at;
          }
    ]
  ]

  blobs-credit_find : (t : ObjectToken) (k : ℕ) → (credit_find t k s).blobs ≡ s.blobs
  unfolding credit_find mark_balloon_found
  blobs-credit_find t k = elim (Bool-cases (t.requester_id == 0)) [
    | inl z ↦ rw z
    | inr z ↦ elim (Option-cases (lookup k s.records)) [
      | inl e ↦ rw (z, e, credit_find)
      | inr (r, e) ↦ ground (arith, z, e)
    ]
  ]

  blobs-download_object : (t : ObjectToken) (k : ℕ) → (download_object t k s).1.blobs ≡ s.blobs
  unfolding download_object
  blobs-download_object t k = ground (arith, blobs-credit_find t k)

  abbrev Written : HttpMethod → ObjectToken → ℕ → ℕ → Type 0
  Written m t j k =
      (lookup k (dispatch_object m req t j s).1.blobs ≡ lookup k s.blobs)
      ⊎ ((j ≡ k)
          × (t.upload ≡ true)
          × ((m ≡ HttpMethod.put) ⊎ (m ≡ HttpMethod.post))
          × (lookup k (dispatch_object m req t j s).1.blobs ≡ some req.received))

  upload_Written :
      (t : ObjectToken) (j k : ℕ)
      → (lookup k (upload_object req t j s).1.blobs ≡ lookup k s.blobs)
        ⊎ ((j ≡ k)
            × (t.upload ≡ true)
            × (lookup k (upload_object req t j s).1.blobs ≡ some req.received))
  unfolding upload_object
  upload_Written t j k = elim (Bool-cases t.upload) [
    | inr u ↦ inl (rw u)
    | inl u ↦ elim (Bool-cases req.can_create) [
      | inr c ↦ inl (rw (u, c))
      | inl c ↦ elim (Bool-cases (j == k)) [
        | inr ne ↦ inl (rw (u, c, lookup-insert, ne))
        | inl e ↦ inr ((==_iff j k).0 e, u, rw (u, c, lookup-insert, e))
      ]
    ]
  ]

  dispatch_Written : (m : HttpMethod) (t : ObjectToken) (j k : ℕ) → Written m t j k
  unfolding dispatch_object
  dispatch_Written HttpMethod.put t j k = elim (upload_Written t j k) [
    | inl same ↦ inl same
    | inr (e, u, h) ↦ inr (e, u, inl refl, h)
  ]
  dispatch_Written HttpMethod.post t j k = elim (upload_Written t j k) [
    | inl same ↦ inl same
    | inr (e, u, h) ↦ inr (e, u, inr refl, h)
  ]
  dispatch_Written HttpMethod.get t j k = inl (ap (lookup k) (blobs-download_object t j))
  dispatch_Written HttpMethod.other t j k = inl refl

  -- If a request to the object host changes the file of an object, then it is a PUT or a POST that
  -- names the object and carries a stored upload token for it which has not expired, and the file
  -- then holds the bytes that arrived.
  pub serve_object-Writes :
      (k : ℕ) → lookup k (serve_object now req s).1.blobs ≢ lookup k s.blobs → Writes k
  unfolding serve_object
  serve_object-Writes k changed = elim (Option-cases req.object_id) [
    | inl e ↦ absurd (changed (rw (e, serve_object)))
    | inr (j, e) ↦ elim (Option-cases (token_for now req j s)) [
      | inl none_open ↦ absurd (changed (rw (e, serve_object, none_open)))
      | inr (t, o) ↦ elim (dispatch_Written req.method t j k) [
        | inl same ↦ absurd (changed (rw (e, serve_object, o) same))
        | inr (at, u, m, h) ↦ record {
          t = t;
          opens = token_for-Opens now req k s t (rw (← at) e) (rw (← at) o);
          uploads = u;
          is_upload = m;
          holds = rw (e, serve_object, o) h;
        }
      ]
    ]
  ]
