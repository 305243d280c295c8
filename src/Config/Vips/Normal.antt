-- ===== src/Config/Vips/Normal.antt =====
-- What `Config::normalize_vips` of src/config/vip_validation.rs leaves: valid bindings, one for each
-- address, with none lost.
use text.Mathlib.TextEquality.{eq_iff}
use keep_afloat_d.Prelude.{
  ℕ, ◌+◌, ◌≡◌, refl, sym, ap, subst, Bool-cases, inl, inr, true, false, not, ◌&&◌, some, List, [],
  ◌∷◌, All, ==_iff, same, same_self, ok, and_then-eq-ok, unless-eq-ok, arith,
}
use keep_afloat_d.BTreeMap
use keep_afloat_d.BTreeMap.{BTreeMap}
use keep_afloat_d.BTreeMap.Laws.{get-insert}
use keep_afloat_d.BTreeSet
use keep_afloat_d.BTreeSet.Distinct.{IsDistinct}
use keep_afloat_d.Addr.{IpAddr, v4, v6, ip_ord}
use keep_afloat_d.Store.Recompute
use keep_afloat_d.Config.Vips.{
  sorted_vips, VipConfig, Text, Binding, binding_of, agrees, check_vip, check_vips, normalize_vips,
  sort_by_address, dedup_by_address, addresses, is_interface, effective_interface, is_unspecified,
  is_multicast, is_loopback, check_family, check_vlan, unmap, within,
}
use keep_afloat_d.Config.Vips.Sorting.{
  IsAscending, sorted-IsAscending, IsAscending-IsDistinct, contains-sorted, sorted-All,
}

abbrev pub host_prefix : IpAddr → ℕ
host_prefix (v4 a) = 32
host_prefix (v6 a) = 128

All-map :
    {P Q : VipConfig → Type 0} (vs : List VipConfig)
    → ((v : VipConfig) → P v → Q v)
    → All P vs
    → All Q vs
All-map [] f ps = tt
All-map (v ∷ vs) f ps = (f v ps.0, All-map vs f ps.1)

module _ (text : Text) where
  -- A VIP that can be bound: a unicast address that is not the loopback's, with a prefix of its family,
  -- on an interface with a valid name.
  pub record IsBindable (vip : VipConfig) : Type 0 where
    pub unspecified : is_unspecified vip.address.addr ≡ false
    pub multicast : is_multicast vip.address.addr ≡ false
    pub loopback : is_loopback vip.address.addr ≡ false
    pub prefix : within 1 (host_prefix vip.address.addr) vip.address.prefix ≡ true
    pub interface : is_interface text (effective_interface text vip) ≡ true

  check_family-prefix :
      (a : IpAddr) (prefix i : ℕ)
      → check_family text a prefix i ≡ ok tt
      → within 1 (host_prefix a) prefix ≡ true
  check_family-prefix (v4 a) prefix i h = ground arith
  check_family-prefix (v6 a) prefix i h = ground arith

  check_vip-IsBindable :
      (given : VipConfig) (i : ℕ) (vip : VipConfig)
      → check_vip text given i ≡ ok vip
      → IsBindable vip
  unfolding check_vip
  check_vip-IsBindable given i vip h =
      let (v, _, h1) = and_then-eq-ok (unmap text given i given.address.addr) _ h in
      let a = v.address.addr in
      let (host, h2) =
        unless-eq-ok (not (not (is_unspecified a) && not (is_multicast a) && not (is_loopback a))) _
          _ h1 in
      let (_, family, h3) = and_then-eq-ok (check_family text a v.address.prefix i) _ h2 in
      let (_, h4) = unless-eq-ok (not (is_interface text v.interface)) _ _ h3 in
      let (_, _, h5) = and_then-eq-ok (check_vlan text v.interface v.vlan i) _ h4 in
      let (name, h6) = unless-eq-ok (not (is_interface text (effective_interface text v))) _ _ h5 in
      let e : v ≡ vip = cc in
      subst IsBindable e (record {
        unspecified = ground arith;
        multicast = ground arith;
        loopback = ground arith;
        prefix = check_family-prefix a v.address.prefix i family;
        interface = ground arith;
      })

  -- Each VIP as the loop stores it.
  abbrev pub IsChecked : List VipConfig → ℕ → List VipConfig → Type 0
  IsChecked [] i [] = Unit
  IsChecked [] i (v ∷ vs) = ⊥
  IsChecked (g ∷ gs) i [] = ⊥
  IsChecked (g ∷ gs) i (v ∷ vs) = (check_vip text g i ≡ ok v) × IsChecked gs (i + 1) vs

  -- The same prefix and interface, where the address is the same.
  abbrev pub Agrees : VipConfig → VipConfig → Type 0
  Agrees v w = v.address.addr ≡ w.address.addr → binding_of text v ≡ binding_of text w

  agrees-eq : (b c : Binding) → agrees text (some b) c ≡ true → b ≡ c
  agrees-eq b c h = ground (arith, eq_iff b.1 c.1, ==_iff b.0 c.0)

  -- What the loop has checked against the bindings before it, and within itself.
  record Fits (b : BTreeMap IpAddr Binding) (vs : List VipConfig) : Type 0 where
    before :
        All
          (λ (v : VipConfig).
            agrees text (BTreeMap.get b v.address.addr) (binding_of text v) ≡ true)
          vs
    among : All (λ (v : VipConfig). All (Agrees v) vs) vs
    bindable : All IsBindable vs

  meets_eq :
      (b : BTreeMap IpAddr Binding) (v w : VipConfig)
      → agrees text (BTreeMap.get b v.address.addr) (binding_of text v) ≡ true
      → agrees text
          (BTreeMap.get (BTreeMap.insert b v.address.addr (binding_of text v)) w.address.addr)
          (binding_of text w)
        ≡ true
      → w.address.addr ≡ v.address.addr
      → binding_of text v ≡ binding_of text w
  meets_eq b v w hv hw e = agrees-eq (binding_of text v) (binding_of text w) (
      rw
        (
          sym hw,
          get-insert b v.address.addr w.address.addr (binding_of text v),
          e,
          same_self v.address.addr,
        )
        refl)

  meets_before :
      (b : BTreeMap IpAddr Binding) (v w : VipConfig)
      → agrees text (BTreeMap.get b v.address.addr) (binding_of text v) ≡ true
      → agrees text
          (BTreeMap.get (BTreeMap.insert b v.address.addr (binding_of text v)) w.address.addr)
          (binding_of text w)
        ≡ true
      → agrees text (BTreeMap.get b w.address.addr) (binding_of text w) ≡ true
  meets_before b v w hv hw = elim (Bool-cases (same w.address.addr v.address.addr)) [
    | inl e ↦
        let a = ip_ord.eq_of_cmp w.address.addr v.address.addr (ground arith) in
        rw (a, sym (meets_eq b v w hv hw a)) hv
    | inr n ↦ rw (sym hw, get-insert b v.address.addr w.address.addr (binding_of text v), n) refl
  ]

  cons-Fits :
      (b : BTreeMap IpAddr Binding) (v : VipConfig) (vs : List VipConfig)
      → IsBindable v
      → agrees text (BTreeMap.get b v.address.addr) (binding_of text v) ≡ true
      → Fits (BTreeMap.insert b v.address.addr (binding_of text v)) vs
      → Fits b (v ∷ vs)
  cons-Fits b v vs valid hv rest = record {
    before = (hv, All-map vs (λ w hw. meets_before b v w hv hw) rest.before);
    among = (
      (λ e. refl, All-map vs (λ w hw e. meets_eq b v w hv hw (sym e)) rest.before),
      All-both vs (All-map vs (λ w hw e. sym (meets_eq b v w hv hw e)) rest.before) rest.among,
    );
    bindable = (valid, rest.bindable);
  }
    where
      All-both :
          (ws : List VipConfig)
          → All (λ (w : VipConfig). Agrees w v) ws
          → All (λ (w : VipConfig). All (Agrees w) vs) ws
          → All (λ (w : VipConfig). All (Agrees w) (v ∷ vs)) ws
      All-both [] p q = tt
      All-both (w ∷ ws) p q = ((p.0, q.0), All-both ws p.1 q.1)

  check_vips-Fits :
      (given : List VipConfig) (i : ℕ) (b : BTreeMap IpAddr Binding) (vs : List VipConfig)
      → check_vips text given i b ≡ ok vs
      → IsChecked given i vs × Fits b vs
  unfolding check_vips
  check_vips-Fits [] i b [] h = (tt, record { before = tt; among = tt; bindable = tt })
  check_vips-Fits [] i b (v ∷ vs) h = cc
  check_vips-Fits (g ∷ given) i b out h =
      let (v, checked, h1) = and_then-eq-ok (check_vip text g i) _ h in
      let (meets, h2) =
        unless-eq-ok (not (agrees text (BTreeMap.get b v.address.addr) (binding_of text v))) _ _
          h1 in
      let (rest, more, h3) =
        and_then-eq-ok
          (check_vips text given (i + 1) (BTreeMap.insert b v.address.addr (binding_of text v))) _
          h2 in
      let (all, fits) =
        check_vips-Fits given (i + 1) (BTreeMap.insert b v.address.addr (binding_of text v)) rest
          more in
      let e : v ∷ rest ≡ out = cc in
      subst (λ vs. IsChecked (g ∷ given) i vs × Fits b vs) e
        (
          (checked, all),
          cons-Fits b v rest (check_vip-IsBindable g i v checked) (ground arith) fits,
        )

  addresses-sorted_vips :
      (vips : List VipConfig) → Recompute.addresses (sorted_vips text vips) ≡ addresses vips
  addresses-sorted_vips [] = refl
  addresses-sorted_vips (v ∷ vips) = ap (λ rest. v.address.addr ∷ rest) (addresses-sorted_vips vips)

  -- The list that is left: its addresses ascend, so that none stands twice, every VIP can be bound, and
  -- each VIP that the loop checked is there with its prefix and its interface.
  pub record IsNormal (given out : List VipConfig) : Type 0 where
    pub checked : List VipConfig
    pub each : IsChecked given 0 checked
    pub ascending : IsAscending out
    pub distinct : IsDistinct (Recompute.addresses (sorted_vips text out))
    pub bindable : All IsBindable out
    pub kept :
        (a : IpAddr) → BTreeSet.contains (addresses checked) a ≡ BTreeSet.contains (addresses out) a
    pub agree : All (λ (v : VipConfig). All (Agrees v) out) checked

  -- Where the configuration's list is accepted, the VIPs that are left ascend by address, so that no
  -- address is twice in the list that the store is given, each can be bound, and each VIP that the
  -- loop checked is there with its prefix and its interface.
  pub normalize_vips-IsNormal :
      (given out : List VipConfig) → normalize_vips text given ≡ ok out → IsNormal given out
  unfolding normalize_vips
  normalize_vips-IsNormal given out h =
      let (checked, passed, h1) = and_then-eq-ok (check_vips text given 0 []) _ h in
      let (each, fits) = check_vips-Fits given 0 [] checked passed in
      let up = sorted-IsAscending checked in
      let e : dedup_by_address (sort_by_address checked) ≡ out = cc in
      subst (IsNormal given) e (record {
        checked = checked;
        each = each;
        ascending = up;
        distinct =
            subst IsDistinct
              (sym (addresses-sorted_vips (dedup_by_address (sort_by_address checked))))
              (IsAscending-IsDistinct _ up);
        bindable = sorted-All IsBindable checked fits.bindable;
        kept = λ a. sym (contains-sorted checked a);
        agree = All-map checked (λ v. sorted-All (Agrees v) checked) fits.among;
      })
