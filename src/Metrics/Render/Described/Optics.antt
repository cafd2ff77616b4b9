-- ===== src/Metrics/Render/Described/Optics.antt =====
-- Every sample that collectTransceivers and collectPhy of internal/metrics/collector.go send is of a
-- described family.
use arex.Prelude.{suc, length, ◌≡◌, true, String, ◌+s◌, List, [], ◌∷◌, Option, none, some}
use arex.Metrics.Emit.{Host, bool_attr, count_attr}
use arex.Metrics.Emit.Laws.{Counts, AllDescribed, described_rules, is_family}
use arex.Eapi.Types.Optics.{
  DomThresholds, Transceiver, ShowTransceiverDetail, PhyBoolAttr, PhyCounterAttr, PhyPcs, PhyPma,
  PhyFec, PhyStatus, InterfacePhy, ShowPhyDetail,
}
use arex.Metrics.Render.Optics.{
  DomParam, collect_level, collect_thresholds, collect_param, collect_transceiver,
  collect_transceivers, collect_block_lock, collect_pcs, collect_pma, collect_lane, collect_fec,
  collect_phy_status, collect_interface_phy, collect_phy,
}

module _ {F : Type 0} ⦃h : Host F⦄ ⦃counts : Counts h⦄ {label : String} where
  bool_attr-IsDescribed :
      (name : String) (a : PhyBoolAttr F) (rest : List String)
      → is_family name (suc (length rest)) ≡ true
      → is_family (name +s "_changes_total") (suc (length rest)) ≡ true
      → AllDescribed label (bool_attr name a (label ∷ rest))
  unfolding bool_attr
  bool_attr-IsDescribed name a rest f g = search described_rules

  count_attr-IsDescribed :
      (name : String) (a : PhyCounterAttr F) (rest : List String)
      → is_family name (suc (length rest)) ≡ true
      → is_family (name +s "_changes_total") (suc (length rest)) ≡ true
      → is_family (name +s "_last_change_timestamp_seconds") (suc (length rest)) ≡ true
      → AllDescribed label (count_attr name a (label ∷ rest))
  unfolding count_attr
  count_attr-IsDescribed name a rest f g k = search described_rules

  collect_level-IsDescribed :
      (name : String) (p : DomParam F) (level : String) (o : Option F)
      → is_family (p.prefix +s "_threshold_" +s p.unit) 3 ≡ true
      → AllDescribed label (collect_level label name p level o)
  unfolding collect_level
  collect_level-IsDescribed name p level none f = search described_rules
  collect_level-IsDescribed name p level (some v) f = search described_rules

  collect_thresholds-IsDescribed :
      (name : String) (p : DomParam F) (o : Option (DomThresholds F))
      → is_family (p.prefix +s "_threshold_" +s p.unit) 3 ≡ true
      → AllDescribed label (collect_thresholds label name p o)
  unfolding collect_thresholds
  collect_thresholds-IsDescribed name p none f = search described_rules
  collect_thresholds-IsDescribed name p (some th) f =
      search (described_rules, collect_level-IsDescribed)

  collect_param-IsDescribed :
      (name : String) (x : Transceiver F) (p : DomParam F)
      → is_family (p.prefix +s "_" +s p.unit) 2 ≡ true
      → is_family (p.prefix +s "_threshold_" +s p.unit) 3 ≡ true
      → AllDescribed label (collect_param label name x p)
  unfolding collect_param
  collect_param-IsDescribed name x p f g = search (described_rules, collect_thresholds-IsDescribed)

  collect_transceiver-IsDescribed :
      (name : String) (x : Transceiver F)
      → AllDescribed {F = F} label (collect_transceiver label name x)
  unfolding collect_transceiver is_family
  collect_transceiver-IsDescribed name x =
      search (described_rules, collect_param-IsDescribed) depth 16 fits 20000

  pub collect_transceivers-IsDescribed :
      (iface : String) (t : ShowTransceiverDetail F)
      → AllDescribed {F = F} label (collect_transceivers iface label t)
  unfolding collect_transceivers
  collect_transceivers-IsDescribed iface t =
      search (described_rules, collect_transceiver-IsDescribed)

  collect_block_lock-IsDescribed :
      (name phy : String) (o : Option (PhyBoolAttr F))
      → AllDescribed label (collect_block_lock (label ∷ name ∷ phy ∷ []) o)
  unfolding collect_block_lock is_family
  collect_block_lock-IsDescribed name phy none = search described_rules
  collect_block_lock-IsDescribed name phy (some x) = search (described_rules, bool_attr-IsDescribed)

  collect_pcs-IsDescribed :
      (name : String) (phy : String) (pcs : PhyPcs F)
      → AllDescribed {F = F} label (collect_pcs (label ∷ name ∷ phy ∷ []) pcs)
  unfolding collect_pcs is_family
  collect_pcs-IsDescribed name phy pcs =
      search (described_rules, bool_attr-IsDescribed, collect_block_lock-IsDescribed) depth 16 fits
        20000

  collect_pma-IsDescribed :
      (name : String) (phy : String) (pma : PhyPma F)
      → AllDescribed {F = F} label (collect_pma (label ∷ name ∷ phy ∷ []) pma)
  unfolding collect_pma is_family
  collect_pma-IsDescribed name phy pma =
      search (described_rules, bool_attr-IsDescribed) depth 16 fits 20000

  collect_lane-IsDescribed :
      (name : String) (phy : String) (lane : String) (sym : PhyCounterAttr F)
      → AllDescribed {F = F} label (collect_lane label name phy lane sym)
  unfolding collect_lane is_family
  collect_lane-IsDescribed name phy lane sym = search (described_rules, count_attr-IsDescribed)

  collect_fec-IsDescribed :
      (name : String) (phy : String) (o : Option (PhyFec F))
      → AllDescribed label (collect_fec label name phy o)
  unfolding collect_fec is_family
  collect_fec-IsDescribed name phy none = search described_rules
  collect_fec-IsDescribed name phy (some x) =
      search
        (described_rules, bool_attr-IsDescribed, count_attr-IsDescribed, collect_lane-IsDescribed)
        depth 16 fits 20000

  collect_phy_status-IsDescribed :
      (name : String) (p : PhyStatus F)
      → AllDescribed {F = F} label (collect_phy_status label name p)
  unfolding collect_phy_status is_family
  collect_phy_status-IsDescribed name p =
      search
        (described_rules, collect_pcs-IsDescribed, collect_pma-IsDescribed, collect_fec-IsDescribed)
        depth 16 fits 20000

  collect_interface_phy-IsDescribed :
      (name : String) (i : InterfacePhy F)
      → AllDescribed {F = F} label (collect_interface_phy label name i)
  unfolding collect_interface_phy is_family
  collect_interface_phy-IsDescribed name i =
      search (described_rules, bool_attr-IsDescribed, collect_phy_status-IsDescribed) depth 16 fits
        20000

  pub collect_phy-IsDescribed :
      (iface : String) (phy : ShowPhyDetail F)
      → AllDescribed {F = F} label (collect_phy iface label phy)
  unfolding collect_phy
  collect_phy-IsDescribed iface phy = search (described_rules, collect_interface_phy-IsDescribed)
