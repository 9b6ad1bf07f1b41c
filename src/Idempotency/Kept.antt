-- ===== src/Idempotency/Kept.antt =====
-- internal/idempotency/inmem.go: what the store keeps, and for how long.
use stage_sync.Base.{
  ℕ, ◌+◌, ◌-◌, String, true, false, none, some, ◌≡◌, refl, arith, string_eq, if◌then◌else◌, ltb,
  keep, length, length-keep,
}
use stage_sync.Base.Dict.{lookup, lookup-keep, NodupKeys}
use stage_sync.Runtime.{ok, Time}
use stage_sync.Idempotency.{Entry, InmemEntry, Entries, get, set, put, sweep, is_alive}

module _ {W : Type 0} (now : W → Time × W) where
  -- The lookup of an entry that has not expired.
  pub get_alive :
      (key : String) (e : InmemEntry) (entries : Entries) (w : W)
      → lookup key entries ≡ some e
      → ltb e.expires_at (now w).0 ≡ false
      → get now key (entries, w) ≡ (ok (some e.entry), (entries, (now w).1))
  unfolding get
  get_alive key e entries w h k = rw (get, h, k) refl

  -- The lookup of an absent key.
  pub get_absent :
      (key : String) (entries : Entries) (w : W)
      → lookup key entries ≡ none
      → get now key (entries, w) ≡ (ok none, (entries, w))
  unfolding get
  get_absent key entries w h = rw (get, h) refl

  pub set_absent :
      (ttl : Time) (key : String) (entry : Entry) (entries : Entries) (w : W)
      → lookup key entries ≡ none
      → set now ttl key entry (entries, w) ≡ put now ttl key entry (entries, w)
  unfolding set
  set_absent ttl key entry entries w h = rw (set, h) refl

  -- Before an entry expires, by the time at the call, another `Set` of its key changes no entry.
  pub set_taken :
      (ttl : Time) (key : String) (entry : Entry) (e : InmemEntry) (entries : Entries) (w : W)
      → lookup key entries ≡ some e
      → ltb (now w).0 e.expires_at ≡ true
      → set now ttl key entry (entries, w) ≡ (ok tt, (entries, (now w).1))
  unfolding set
  set_taken ttl key entry e entries w h k = rw (set, h, k) refl

  -- `Sweep` removes the entries that have expired at its time and keeps every other as it is, and
  -- returns how many it removed, where a key has one entry.
  pub sweep_lem :
      (key : String) (e : InmemEntry) (entries : Entries) (w : W)
      → NodupKeys entries
      → lookup key entries ≡ some e
      → (entries' : Entries) × (removed : ℕ) × (sweep now (entries, w)
          ≡ (ok removed, (entries', (now w).1)))
        × (lookup key entries' ≡ (if ltb e.expires_at (now w).0 then none else some e))
        × (removed + length entries' ≡ length entries)
  unfolding sweep
  sweep_lem key e entries w u h = (
    keep (is_alive now (now w).0) entries,
    length entries - length (keep (is_alive now (now w).0) entries),
    refl,
    ground (arith, lookup-keep (is_alive now (now w).0) key e entries u h),
    omega (arith, length-keep (is_alive now (now w).0) entries),
  )
