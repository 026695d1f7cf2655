-- ===== src/Cache/Laws.antt =====
-- What a client of addon/src/captive_portal/services/cache_service.py sees.
use homeassistant_captive_po.Base.{
  ℕ, ◌+◌, ◌≤◌, ◌≡◌, Text, text_eq, text_eq_iff, false, not, none, some, Option, [], ◌∷◌, refl,
  arith, select_where, count_where, if◌then◌else◌, Bool-cases, inl, inr, length,
  length-select_where-not,
}
use homeassistant_captive_po.Time.{DateTime, seconds}
use homeassistant_captive_po.Cache.{
  CacheEntry, CacheService, Items, starts_with, lookup, insert, remove, is_expired, get, set,
  invalidate_pattern, cleanup_expired,
}

-- Each key occurs once.
abbrev pub HasUniqueKeys {ℓ} : {A : Type ℓ} → Items A → Type 0
HasUniqueKeys [] = Unit
HasUniqueKeys ((k, _) ∷ items) = (count_where (λ i. text_eq i.0 k) items ≡ 0) × HasUniqueKeys items

-- What a client sees under a key at a time: a value whose time has not run out.
abbrev pub live {ℓ} : {A : Type ℓ} → DateTime → Option (CacheEntry A) → Option A
live now none = none
live now (some e) = if is_expired now e then none else some e.value

module _ {ℓ} {A : Type ℓ} where
  lookup-remove :
      (k j : Text) (items : Items A)
      → lookup j (remove k items) ≡ (if text_eq k j then none else lookup j items)
  unfolding lookup remove
  lookup-remove k j [] = ground arith
  lookup-remove k j ((i, e) ∷ items) =
      ground (arith, text_eq_iff k j, text_eq_iff i k, text_eq_iff i j, lookup-remove k j items)

  get_lem :
      (key : Text) (now : DateTime) (c : CacheService A)
      → (get key now c).0 ≡ live now (lookup key c.cache)
  unfolding get
  get_lem key now c = ground arith

  -- A read drops the entry that it finds expired, and no later read can tell.
  pub get_invisible :
      (key other : Text) (now later : DateTime) (c : CacheService A)
      → now ≤ later
      → (get other later (get key now c).1).0 ≡ (get other later c).0
  get_invisible key other now later c le = ground (
    arith,
    get_lem other later c,
    get_lem other later (get key now c).1,
    cache-get,
    text_eq_iff key other,
    lookup-remove key other c.cache,
  )
    where
      cache-get : (get key now c).1.cache ≡ (elim (lookup key c.cache) [
        | none ↦ c.cache
        | some e ↦ if is_expired now e then remove key c.cache else c.cache
      ])
      cache-get = unfold get in ground arith

  lookup_absent :
      (k : Text) (items : Items A)
      → count_where (λ i. text_eq i.0 k) items ≡ 0
      → lookup k items ≡ none
  unfolding lookup
  lookup_absent k [] h = refl
  lookup_absent k ((j, e) ∷ items) h = ground (arith, lookup_absent k items)

  lookup-select_live :
      (now : DateTime) (j : Text) (items : Items A)
      → HasUniqueKeys items
      → lookup j (select_where (λ i. not (is_expired now i.1)) items)
        ≡ elim (lookup j items) [ none ↦ none | some e ↦ if is_expired now e then none else some e ]
  unfolding lookup
  lookup-select_live now j [] u = refl
  lookup-select_live now j ((k, e) ∷ items) (once, u) =
      ground (arith, text_eq_iff k j, lookup-select_live now j items u, lookup_absent k items once)

  -- The cleanup returns the number of entries that it removes; no read at that time or later can tell
  -- that it took place.
  pub cleanup_expired_invisible :
      (other : Text) (now later : DateTime) (c : CacheService A)
      → HasUniqueKeys c.cache
      → now ≤ later
      → ((get other later (cleanup_expired now c).1).0 ≡ (get other later c).0)
        × (length (cleanup_expired now c).1.cache + (cleanup_expired now c).0 ≡ length c.cache)
  unfolding cleanup_expired
  cleanup_expired_invisible other now later c u le = (
    ground (
      arith,
      get_lem other later c,
      get_lem other later (cleanup_expired now c).1,
      lookup-select_live now other c.cache u,
    ),
    length-select_where-not (λ i. is_expired now i.1) c.cache,
  )

  lookup-select_pattern :
      (prefix j : Text) (items : Items A)
      → lookup j (select_where (λ i. not (starts_with i.0 prefix)) items)
        ≡ (if starts_with j prefix then none else lookup j items)
  unfolding lookup
  lookup-select_pattern prefix j [] = ground arith
  lookup-select_pattern prefix j ((k, e) ∷ items) =
      ground (arith, text_eq_iff k j, lookup-select_pattern prefix j items)

  -- Invalidating a prefix removes what the keys with the prefix hold, and nothing else.
  pub get-invalidate_pattern :
      (prefix key : Text) (now : DateTime) (c : CacheService A)
      → (get key now (invalidate_pattern prefix c)).0
        ≡ (if starts_with key prefix then none else (get key now c).0)
  unfolding invalidate_pattern
  get-invalidate_pattern prefix key now c = ground (
    arith,
    get_lem key now c,
    get_lem key now (invalidate_pattern prefix c),
    lookup-select_pattern prefix key c.cache,
  )

  -- Setting and removing keep the keys apart.
  pub set-HasUniqueKeys :
      (key : Text) (value : A) (ttl : Option ℕ) (now : DateTime) (c : CacheService A)
      → HasUniqueKeys c.cache
      → HasUniqueKeys (set key value ttl now c).cache
  unfolding set
  set-HasUniqueKeys key value ttl now c = go c.cache
    where
      e : CacheEntry A
      e = record {
        value = value;
        expires_utc = now + seconds (elim ttl [ some n ↦ n | none ↦ c.default_ttl ]);
      }

      others :
          (k : Text) (items : Items A)
          → text_eq key k ≡ false
          → count_where (λ i. text_eq i.0 k) (insert key e items)
            ≡ count_where (λ i. text_eq i.0 k) items
      others k [] h = unfold insert in ground arith
      others k ((j, o) ∷ items) h =
          unfold insert in
          ground (arith, text_eq_iff key k, text_eq_iff j key, text_eq_iff j k, others k items h)

      go : (items : Items A) → HasUniqueKeys items → HasUniqueKeys (insert key e items)
      go [] u = unfold insert in (refl, tt)
      go ((j, o) ∷ items) (once, u) =
          unfold insert in
          elim (Bool-cases (text_eq j key)) [
            | inl same ↦ rw same (once, u)
            | inr other ↦
                rw other
                  (ground (arith, others j items, text_eq_iff key j, text_eq_iff j key), go items u)
          ]
