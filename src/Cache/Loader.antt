-- ===== src/Cache/Loader.antt =====
-- loadercache.go: the items of the cache, and its operations. Times are nanoseconds.
use iracelog_service_manager.Base.{
  ℕ, ◌+◌, Bool, false, Option, none, some, GoMap, Key, lookup, insert, delete, ltb, if◌then◌else◌,
}
use iracelog_service_manager.Base.Results.{Result, done, fail, cache_miss}

pub record Item (V : Type 0) : Type 0 where
  pub content : V
  pub expires : Option ℕ

-- config: the expiration and the loader, if there is one.
pub record Config (K V : Type 0) : Type 0 where
  pub expiration : ℕ
  pub loader : Option (K → Result V)

-- `expires != nil && expires.Before(time.Now())`
unfoldable pub is_expired : {V : Type 0} → ℕ → Item V → Bool
is_expired now item = elim item.expires [ none ↦ false | some t ↦ ltb t now ]

module _ {K V : Type 0} ⦃e : Key K⦄ (config : Config K V) where
  -- load
  unfoldable pub load : ℕ → K → GoMap K (Item V) → Result V × GoMap K (Item V)
  unfolding insert
  load now key items = elim config.loader [
    | none ↦ (fail cache_miss, items)
    | some loader ↦ elim (loader key) [
      | fail err ↦ (fail err, items)
      | done v ↦ (
        done v,
        insert key (record { content = v; expires = some (now + config.expiration) }) items,
      )
    ]
  ]

  -- Get
  unfoldable pub get : ℕ → K → GoMap K (Item V) → Result V × GoMap K (Item V)
  unfolding load is_expired lookup delete
  get now key items = elim (lookup key items) [
    | none ↦ load now key items
    | some item ↦
        if is_expired now item then load now key (delete key items) else (done item.content, items)
  ]

-- Invalidate
unfoldable pub invalidate : {K V : Type 0} ⦃e : Key K⦄ → K → GoMap K (Item V) → GoMap K (Item V)
unfolding delete
invalidate key items = delete key items
