-- ===== src/Cache.antt =====
-- addon/src/captive_portal/services/cache_service.py
--
-- The lock makes each method one step. The dictionary is the list of its items in insertion order;
-- an item's key occurs once. A method that reads the clock takes the time as its argument.
pub mod Laws
use homeassistant_captive_po.Base.{
  ℕ, ◌+◌, Text, text_eq, Bool, true, false, not, ◌&&◌, leb, ◌==◌, Option, none, some, List, [], ◌∷◌,
  select_where, count_where, if◌then◌else◌,
}
use homeassistant_captive_po.Time.{DateTime, seconds}

pub record CacheEntry {ℓ} (A : Type ℓ) : Type ℓ where
  pub value : A
  pub expires_utc : DateTime

abbrev pub Items {ℓ} : Type ℓ → Type ℓ
Items A = List (Text × CacheEntry A)

pub record CacheService {ℓ} (A : Type ℓ) : Type ℓ where
  pub cache : Items A
  pub default_ttl : ℕ

-- k.startswith(prefix)
unfoldable pub starts_with : Text → Text → Bool
starts_with k [] = true
starts_with [] (c ∷ prefix) = false
starts_with (d ∷ k) (c ∷ prefix) = d == c && starts_with k prefix

module _ {ℓ} {A : Type ℓ} where
  pub lookup : Text → Items A → Option (CacheEntry A)
  lookup key [] = none
  lookup key ((k, e) ∷ items) = if text_eq k key then some e else lookup key items

  -- d[key] = e: in place, or at the end.
  pub insert : Text → CacheEntry A → Items A → Items A
  insert key e [] = (key, e) ∷ []
  insert key e ((k, old) ∷ items) =
      if text_eq k key then (k, e) ∷ items else (k, old) ∷ insert key e items

  -- del d[key] and d.pop(key, None).
  unfoldable pub remove : Text → Items A → Items A
  remove key items = select_where (λ i. not (text_eq i.0 key)) items

  abbrev pub is_expired : DateTime → CacheEntry A → Bool
  is_expired now e = leb e.expires_utc now

  abbrev get_entry :
      Text → DateTime → CacheService A → Option (CacheEntry A) → Option A × CacheService A
  get_entry key now c none = (none, c)
  get_entry key now c (some e) =
      if is_expired now e
      then (none, record c { cache = remove key c.cache })
      else (some e.value, c)

  unfoldable pub get : Text → DateTime → CacheService A → Option A × CacheService A
  unfolding lookup
  get key now c = get_entry key now c (lookup key c.cache)

  unfoldable pub set : Text → A → Option ℕ → DateTime → CacheService A → CacheService A
  unfolding insert
  set key value ttl_seconds now c =
      let ttl : ℕ = elim ttl_seconds [ some n ↦ n | none ↦ c.default_ttl ] in
      record c {
        cache = insert key (record { value = value; expires_utc = now + seconds ttl }) c.cache;
      }

  unfoldable pub invalidate : Text → CacheService A → CacheService A
  invalidate key c = record c { cache = remove key c.cache }

  unfoldable pub invalidate_pattern : Text → CacheService A → CacheService A
  invalidate_pattern prefix c = record c {
    cache = select_where (λ i. not (starts_with i.0 prefix)) c.cache;
  }

  unfoldable pub clear : CacheService A → CacheService A
  clear c = record c { cache = [] }

  unfoldable pub cleanup_expired : DateTime → CacheService A → ℕ × CacheService A
  cleanup_expired now c = (
    count_where (λ i. is_expired now i.1) c.cache,
    record c { cache = select_where (λ i. not (is_expired now i.1)) c.cache },
  )
