-- ===== src/Vlan.antt =====
-- addon/src/captive_portal/services/vlan_validation_service.py
--
-- `int_of` is Python's `int` on a text, `none` where it raises ValueError.
use homeassistant_captive_po.Base.{
  ℕ, ◌≤◌, ◌≡◌, ◌↔◌, ◌⊎◌, Text, is_empty, strip, true, false, ◌||◌, ltb, ◌==◌, Option, none, some,
  List, [], ◌∷◌, any_where, ℤ, pos, negsuc, if◌then◌else◌, arith, inl, inr, refl,
}
use homeassistant_captive_po.Models.Voucher.{Voucher}
use homeassistant_captive_po.Models.Booking.{HaIntegrationConfig}
use homeassistant_captive_po.Models.Audit.{allowed, skipped, vlan_mismatch, missing_vid, VlanMeta}

-- `if vid < 1 or vid > 4094: return None`
abbrev vid_in_range : Option ℤ → Option ℕ
vid_in_range none = none
vid_in_range (some (negsuc n)) = none
vid_in_range (some (pos n)) = if ltb n 1 || ltb 4094 n then none else some n

-- `allowed_vlans or []`
abbrev pub or_empty : Option (List ℕ) → List ℕ
or_empty none = []
or_empty (some l) = l

module _ (int_of : Text → Option ℤ) where
  unfoldable pub parse_vid : Option Text → Option ℕ
  parse_vid none = none
  parse_vid (some vid_raw) =
      if is_empty (strip vid_raw) then none else vid_in_range (int_of (strip vid_raw))

  abbrev listed : List ℕ → Option ℕ → VlanMeta
  listed vlans none = record {
    vlan_allowed = false;
    vlan_reason = missing_vid;
    vlan_device_vid = none;
    vlan_allowed_vlans = vlans;
  }
  listed vlans (some vid) =
      if any_where (λ v. v == vid) vlans
      then record {
        vlan_allowed = true;
        vlan_reason = allowed;
        vlan_device_vid = some vid;
        vlan_allowed_vlans = vlans;
      }
      else record {
        vlan_allowed = false;
        vlan_reason = vlan_mismatch;
        vlan_device_vid = some vid;
        vlan_allowed_vlans = vlans;
      }

  abbrev effective : List ℕ → Option Text → VlanMeta
  effective [] vid_raw = record {
    vlan_allowed = true;
    vlan_reason = skipped;
    vlan_device_vid = parse_vid vid_raw;
    vlan_allowed_vlans = [];
  }
  effective (v ∷ vlans) vid_raw = listed (v ∷ vlans) (parse_vid vid_raw)

  unfoldable pub validate_vlan : Option Text → Option (List ℕ) → VlanMeta
  validate_vlan vid_raw allowed_vlans = effective (or_empty allowed_vlans) vid_raw

  unfoldable pub validate_booking_vlan : Option Text → HaIntegrationConfig → VlanMeta
  unfolding validate_vlan
  validate_booking_vlan vid_raw integration = validate_vlan vid_raw integration.allowed_vlans

  unfoldable pub validate_voucher_vlan : Option Text → Voucher → VlanMeta
  unfolding validate_vlan
  validate_voucher_vlan vid_raw v = validate_vlan vid_raw v.allowed_vlans

  listed-allowed :
      (vlans : List ℕ) (o : Option ℕ)
      → (listed vlans o).vlan_allowed ≡ true
      → (vid : ℕ) × (o ≡ some vid) × (any_where (λ v. v == vid) vlans ≡ true)
  listed-allowed vlans none h = absurd (ground arith)
  listed-allowed vlans (some vid) h = (vid, refl, ground arith)

  effective_sound :
      (vlans : List ℕ) (vid_raw : Option Text)
      → (effective vlans vid_raw).vlan_allowed ≡ true
      → (vlans ≡ [])
        ⊎ ((vid : ℕ) × (parse_vid vid_raw ≡ some vid) × (any_where (λ v. v == vid) vlans ≡ true))
  effective_sound [] vid_raw h = inl refl
  effective_sound (v ∷ vlans) vid_raw h = inr (listed-allowed (v ∷ vlans) (parse_vid vid_raw) h)

  effective_complete :
      (vlans : List ℕ) (vid_raw : Option Text) (vid : ℕ)
      → parse_vid vid_raw ≡ some vid
      → any_where (λ v. v == vid) vlans ≡ true
      → (effective vlans vid_raw).vlan_allowed ≡ true
  effective_complete [] vid_raw vid e h = refl
  effective_complete (v ∷ vlans) vid_raw vid e h = ground arith

  parse_vid_range :
      (vid_raw : Option Text) (vid : ℕ) → parse_vid vid_raw ≡ some vid → (1 ≤ vid) × (vid ≤ 4094)
  unfolding parse_vid
  parse_vid_range none vid h = absurd (ground arith)
  parse_vid_range (some raw) vid h = ground arith

  -- A device is admitted exactly when the allowlist is absent or empty, or when the device's VLAN
  -- could be read, is an id from 1 to 4094, and stands on the list.
  pub validate_vlan_iff :
      (vid_raw : Option Text) (allowed_vlans : Option (List ℕ))
      → ((validate_vlan vid_raw allowed_vlans).vlan_allowed ≡ true) ↔ (
          (or_empty allowed_vlans ≡ [])
          ⊎ ((vid : ℕ) × (parse_vid vid_raw ≡ some vid)
              × (1 ≤ vid)
              × (vid ≤ 4094)
              × (any_where (λ v. v == vid) (or_empty allowed_vlans) ≡ true)))
  unfolding validate_vlan
  validate_vlan_iff vid_raw allowed_vlans = (
    (λ h. elim (effective_sound (or_empty allowed_vlans) vid_raw h) [
      | inl e ↦ inl e
      | inr (vid, e, m) ↦ let (lo, hi) = parse_vid_range vid_raw vid e in inr (vid, e, lo, hi, m)
    ]),
    λ h. elim h [
      | inl e ↦ rw e
      | inr (vid, e, _, _, m) ↦ effective_complete (or_empty allowed_vlans) vid_raw vid e m
    ],
  )
