-- ===== src/Recorder/Touch.antt =====
-- The time that a batch leaves on its keys, `DbSink::flush` in src/usage/recorder.rs.
use lite_agentify.Prelude.{
  Bool, true, false, if◌then◌else◌, ◌||◌, any, is_some, ◌≡◌, refl, sym, ap, ◌∙◌, Option, none, some,
  List, [], ◌∷◌, nat_eq, arith, Option-cases, Bool-cases, inl, inr, ◌==◌,
}
use lite_agentify.Prelude.Map.{Map, get, insert, get-insert}
use lite_agentify.Model.{Uuid, DateTime}
use lite_agentify.Proxy.Record.{Crates, UsageRecord}
use lite_agentify.Recorder.{latest, last_used, newest, ids, touched_keys}

or_false : (b : Bool) → (b || false) ≡ b
or_false true = refl
or_false false = refl

one_more :
    (here there : Bool) (old : Option DateTime) (t : DateTime)
    → (there || is_some (if here then some t else old)) ≡ ((here || there) || is_some old)
one_more true true old t = refl
one_more true false old t = refl
one_more false true old t = refl
one_more false false old t = refl

module _ (x : Crates) where
  -- Reference: the latest time of the records that name a key.
  abbrev pub latest_time : List (UsageRecord x) → Option DateTime → Option DateTime
  latest_time [] t = t
  latest_time (r ∷ batch) t = elim r.api_key_id [
    | none ↦ latest_time batch t
    | some id ↦ latest_time batch (some (latest x t r.created_at))
  ]

  newest-insert :
      (id : Uuid) (t v : DateTime) (seen : Map Uuid DateTime)
      → v ≡ latest x (get id seen) t
      → newest x (insert id v seen) ≡ some (latest x (newest x seen) t)
  unfolding newest insert get
  newest-insert id t v [] e = ap some e
  newest-insert id t v ((i, u) ∷ seen) e = elim (Bool-cases (i == id)) [
    | inl same ↦
        let larger : v ≡ latest x (some u) t = e ∙ rw same refl in rw same (ground (arith, larger))
    | inr differ ↦
        let kept : v ≡ latest x (get id seen) t = e ∙ rw differ refl in
        rw differ (ground (arith, newest-insert id t v seen kept))
  ]

  newest-last_used :
      (batch : List (UsageRecord x)) (seen : Map Uuid DateTime)
      → newest x (last_used x batch seen) ≡ latest_time batch (newest x seen)
  unfolding last_used
  newest-last_used [] seen = refl
  newest-last_used (r ∷ batch) seen = elim (Option-cases r.api_key_id) [
    | inl unknown ↦ rw (last_used, unknown) (newest-last_used batch seen)
    | inr (id, known) ↦
        rw (last_used, known)
          (newest-last_used batch (insert id (latest x (get id seen) r.created_at) seen)
            ∙ ap (latest_time batch)
                (newest-insert id r.created_at (latest x (get id seen) r.created_at) seen refl))
  ]

  -- Reference: some record names the key.
  abbrev pub names_key : Uuid → List (UsageRecord x) → Bool
  names_key key [] = false
  names_key key (r ∷ batch) = elim r.api_key_id [
    | none ↦ names_key key batch
    | some id ↦ id == key || names_key key batch
  ]

  get-last_used :
      (key : Uuid) (batch : List (UsageRecord x)) (seen : Map Uuid DateTime)
      → is_some (get key (last_used x batch seen)) ≡ (names_key key batch || is_some (get key seen))
  unfolding last_used
  get-last_used key [] seen = refl
  get-last_used key (r ∷ batch) seen = elim (Option-cases r.api_key_id) [
    | inl unknown ↦ rw (last_used, unknown) (get-last_used key batch seen)
    | inr (id, known) ↦
        let t = latest x (get id seen) r.created_at in
        let rest = get-last_used key batch (insert id t seen) in
        let here = get-insert id key t seen in
        rw (last_used, known)
          (rest
            ∙ ap (λ found. names_key key batch || is_some found) here
            ∙ one_more (id == key) (names_key key batch) (get key seen) t)
  ]

  listed-ids :
      (key : Uuid) (seen : Map Uuid DateTime)
      → any (λ id. id == key) (ids x seen) ≡ is_some (get key seen)
  unfolding get
  listed-ids key [] = refl
  listed-ids key ((id, t) ∷ seen) = ground (arith, listed-ids key seen)

  newest-none : (seen : Map Uuid DateTime) → newest x seen ≡ none → seen ≡ []
  unfolding newest
  newest-none [] h = refl
  newest-none ((id, t) ∷ seen) h = absurd (ground arith)

  abbrev pub time_of : Option (DateTime × List Uuid) → Option DateTime
  time_of none = none
  time_of (some (t, keys)) = some t

  abbrev pub keys_of : Option (DateTime × List Uuid) → List Uuid
  keys_of none = []
  keys_of (some (t, keys)) = keys

  -- A batch sets one time on the keys that its records name, on all of them and on no other: the
  -- latest of all its records that name a key, whichever key that is; and it sets none exactly if no
  -- record names a key.
  pub touched_keys-exact :
      (batch : List (UsageRecord x)) (key : Uuid)
      → (time_of (touched_keys x batch) ≡ latest_time batch none)
        × (any (λ id. id == key) (keys_of (touched_keys x batch)) ≡ names_key key batch)
  unfolding touched_keys get newest
  touched_keys-exact batch key =
      let whole = newest-last_used batch [] in
      let listed : any (λ id. id == key) (ids x (last_used x batch [])) ≡ names_key key batch =
        listed-ids key (last_used x batch []) ∙ get-last_used key batch [] ∙ or_false _ in
      elim (Option-cases (newest x (last_used x batch []))) [
        | inl nothing ↦
            let empty = newest-none (last_used x batch []) nothing in
            rw (touched_keys, nothing)
              (sym nothing ∙ whole, sym (ap (λ m. any (λ id. id == key) (ids x m)) empty) ∙ listed)
        | inr (t, found) ↦ rw (touched_keys, found) (sym found ∙ whole, listed)
      ]
