-- ===== src/Config/Examples.antt =====
-- Instances of the theorems on the configuration.
use Prim.Native.Char.{code}
use keep_afloat_d.Prelude.{◌+◌, ◌*◌, ◌^◌, ◌≡◌, refl, none, some, List, [], ◌∷◌, ok, err, ltb, ◌==◌}
use keep_afloat_d.BTreeMap
use keep_afloat_d.Addr.{v4, v6, ip_ord}
use keep_afloat_d.Config.Vips.{
  VipConfig, Text, any_char, is_interface, check_vip, check_vips, insert_by_address,
  sort_by_address, dedup_after, dedup_by_address, normalize_vips,
}
use keep_afloat_d.Config.Vips.Normal.{IsNormal, normalize_vips-IsNormal}

abbrev pub ascii : Text
ascii = record {
  is_whitespace = λ c. code c == 32;
  is_control = λ c. ltb (code c) 32;
  decimal = λ n. "100";
}

abbrev high : VipConfig
high = record {
  address = record { addr = v4 167772170; prefix = 24 };
  interface = "eth0";
  vlan = some 100;
}

abbrev low : VipConfig
low = record {
  address = record { addr = v4 167772165; prefix = 24 };
  interface = "eth0";
  vlan = none;
}

-- The same as `low`, written as a mapped address.
abbrev mapped : VipConfig
mapped = record {
  address = record { addr = v6 (0xffff * 2 ^ 32 + 167772165); prefix = 120 };
  interface = "eth0";
  vlan = none;
}

abbrev listed : List VipConfig
listed = high ∷ mapped ∷ low ∷ []

accepted : normalize_vips ascii listed ≡ ok (low ∷ high ∷ [])
unfolding normalize_vips check_vips check_vip is_interface any_char insert_by_address
    sort_by_address dedup_after dedup_by_address BTreeMap.get BTreeMap.insert ip_ord
accepted = refl

normalize_vips-IsNormal_example : IsNormal ascii listed (low ∷ high ∷ [])
normalize_vips-IsNormal_example = normalize_vips-IsNormal ascii listed (low ∷ high ∷ []) accepted

-- Two prefixes for one address are a conflict.
refused :
    normalize_vips ascii
      (low ∷ record low { address = record { addr = v4 167772165; prefix = 25 } } ∷ [])
    ≡ err (1, "conflicting VIP: prefix and effective interface must agree")
unfolding normalize_vips check_vips check_vip is_interface any_char insert_by_address
    sort_by_address dedup_after dedup_by_address BTreeMap.get BTreeMap.insert ip_ord
refused = refl
