-- ===== src/Osd/Gather/Flags.antt =====
-- What `collectOSDDump` of ceph/osd.go shows of the states of the OSDs.
use ceph_exporter.Base.{
  String, ◌≡◌, refl, ap, ◌∙◌, Bool, false, ◌&&◌, ◌||◌, Option, some, List, [], ◌∷◌, ◌++◌, ℤ, codes,
  eq_iff, beq, strings_eq, string_beq, if◌then◌else◌, Bool-cases, inl, inr, arith,
}
use ceph_exporter.Base.Result.{ok}
use ceph_exporter.Float.{Float64, parse, of_count}
use ceph_exporter.Version.Decimal.{atoi}
use ceph_exporter.Osd.Names.{Labels, labels_of}
use ceph_exporter.Osd.Replies.{DumpInfo}
use ceph_exporter.Osd.Gather.{state_write, state_writes, zero_states, dump_info, dump_infos}
use ceph_exporter.Osd.Writes.{
  OsdGauge, osd_in, osd_up, osd_full, osd_near_full, osd_backfill_full, same, Write, write, going,
}
use ceph_exporter.Osd.Collector.Interleavings.{last_write, last_write-append}

-- The three states that are shown.
pub data Flag : Type 0 where
  full near_full backfill_full : Flag

abbrev pub shown_by : Flag → OsdGauge
shown_by full = osd_full
shown_by near_full = osd_near_full
shown_by backfill_full = osd_backfill_full

abbrev pub name_of : Flag → String
name_of full = "full"
name_of near_full = "nearfull"
name_of backfill_full = "backfillfull"

abbrev pub is_among : String → List String → Bool
is_among name [] = false
is_among name (state ∷ states) = string_beq state name || is_among name states

module _ (fl : Float64) where
  open fl use {Value}

  abbrev pub bit : Bool → Value
  bit b = if b then of_count fl 1 else of_count fl 0

  last_write-state_write :
      (f : Flag) (ks ls : List String) (found : Option Value) (state : String)
      → last_write (shown_by f) ls found (state_write fl ks state)
        ≡ (if string_beq state (name_of f) && beq ks ls then some (of_count fl 1) else found)
  unfolding last_write same
  last_write-state_write f ks ls found state = elim (Bool-cases (string_beq state "full")) [
    | inl e ↦ rw ((eq_iff state "full").0 e) (at_full f)
    | inr e ↦ elim (Bool-cases (string_beq state "nearfull")) [
      | inl e' ↦ rw ((eq_iff state "nearfull").0 e') (at_near_full f)
      | inr e' ↦ elim (Bool-cases (string_beq state "backfillfull")) [
        | inl e'' ↦ rw ((eq_iff state "backfillfull").0 e'') (at_backfill_full f)
        | inr e'' ↦ rw (e, e', e'') (other f e e' e'')
      ]
    ]
  ]
    where
      shows : Flag → String → Type 0
      shows f s =
          last_write (shown_by f) ls found (state_write fl ks s)
          ≡ (if string_beq s (name_of f) && beq ks ls then some (of_count fl 1) else found)

      at_full : (f : Flag) → shows f "full"
      at_full full = refl
      at_full near_full = refl
      at_full backfill_full = refl

      at_near_full : (f : Flag) → shows f "nearfull"
      at_near_full full = refl
      at_near_full near_full = refl
      at_near_full backfill_full = refl

      at_backfill_full : (f : Flag) → shows f "backfillfull"
      at_backfill_full full = refl
      at_backfill_full near_full = refl
      at_backfill_full backfill_full = refl

      other :
          (f : Flag)
          → string_beq state "full" ≡ false
          → string_beq state "nearfull" ≡ false
          → string_beq state "backfillfull" ≡ false
          → found
            ≡ (if string_beq state (name_of f) && beq ks ls then some (of_count fl 1) else found)
      other full e e' e'' = rw e refl
      other near_full e e' e'' = rw e' refl
      other backfill_full e e' e'' = rw e'' refl

  last_write-state_writes :
      (f : Flag) (ks ls : List String) (found : Option Value) (states : List String)
      → last_write (shown_by f) ls found (state_writes fl ks states)
        ≡ (if is_among (name_of f) states && beq ks ls then some (of_count fl 1) else found)
  unfolding last_write state_writes
  last_write-state_writes f ks ls found [] = refl
  last_write-state_writes f ks ls found (state ∷ states) =
      last_write-append (shown_by f) ls found (state_write fl ks state) (state_writes fl ks states)
      ∙ ap (λ o. last_write (shown_by f) ls o (state_writes fl ks states))
          (last_write-state_write f ks ls found state)
      ∙ last_write-state_writes f ks ls
          (if string_beq state (name_of f) && beq ks ls then some (of_count fl 1) else found) states
      ∙ ground arith

  last_write-states :
      (f : Flag) (ks ls : List String) (found : Option Value) (states : List String)
      → last_write (shown_by f) ls found (zero_states fl ks ++ state_writes fl ks states)
        ≡ (if beq ks ls then some (bit (is_among (name_of f) states)) else found)
  unfolding last_write same
  last_write-states f ks ls found states =
      zeroed f ∙ last_write-state_writes f ks ls _ states ∙ ground arith
    where
      zeroed :
          (f : Flag)
          → last_write (shown_by f) ls found (zero_states fl ks ++ state_writes fl ks states)
            ≡ last_write
                (shown_by f)
                ls
                (if beq ks ls then some (of_count fl 0) else found)
                (state_writes fl ks states)
      zeroed full = refl
      zeroed near_full = refl
      zeroed backfill_full = refl

  -- The numbers of an OSD of the dump.
  pub record IsReadable (d : DumpInfo) : Type 0 where
    pub id : ℤ
    pub reads_osd : atoi (codes d.osd) ≡ ok id
    pub is_in : Value
    pub reads_in : parse fl d.is_in ≡ some is_in
    pub is_up : Value
    pub reads_up : parse fl d.up ≡ some is_up

  unfoldable pub AreReadable : List DumpInfo → Type 0
  AreReadable [] = Unit
  AreReadable (d ∷ ds) = IsReadable d × AreReadable ds

  -- What the last OSD of the dump with the label values says of the flag.
  unfoldable pub last_flag :
      Labels fl
      → Flag
      → List String
      → Option Value
      → (ds : List DumpInfo) → AreReadable ds
      → Option Value
  unfolding AreReadable
  last_flag labels f ls found [] h = found
  last_flag labels f ls found (d ∷ ds) (h, hs) =
      last_flag labels f ls
        (if beq (labels_of fl labels h.id) ls
          then some (bit (is_among (name_of f) d.state))
          else found)
        ds hs

  dump_info_lem :
      (labels : Labels fl) (d : DumpInfo) (h : IsReadable d)
      → dump_info fl labels d ≡ (
        write osd_in (labels_of fl labels h.id) h.is_in
            ∷ write osd_up (labels_of fl labels h.id) h.is_up
            ∷ (zero_states fl (labels_of fl labels h.id)
                ++ state_writes fl (labels_of fl labels h.id) d.state),
        going,
      )
  unfolding dump_info
  dump_info_lem labels d h = rw (h.reads_osd, h.reads_in, h.reads_up) refl

  last_write-info :
      (f : Flag) (ks ls : List String) (found : Option Value) (x y : Value)
      (ws : List (Write Value))
      → last_write (shown_by f) ls found (write osd_in ks x ∷ write osd_up ks y ∷ ws)
        ≡ last_write (shown_by f) ls found ws
  unfolding last_write same
  last_write-info full ks ls found x y ws = refl
  last_write-info near_full ks ls found x y ws = refl
  last_write-info backfill_full ks ls found x y ws = refl

  -- Where the numbers of all OSDs of a dump can be read, no error ends the loop over them, and each of
  -- the three gauges of full OSDs shows for its label values 1 if the state is listed of the last OSD
  -- of the dump that has them, 0 if it is not, and what was shown before if the dump has none.
  pub dump_infos-last_flag :
      (labels : Labels fl) (found : Option Value) (f : Flag) (ls : List String) (ds : List DumpInfo)
      (h : AreReadable ds)
      → ((dump_infos fl labels ds).1 ≡ going)
        × (last_write (shown_by f) ls found (dump_infos fl labels ds).0
            ≡ last_flag labels f ls found ds h)
  unfolding dump_infos last_flag AreReadable last_write
  dump_infos-last_flag labels found f ls [] h = (refl, refl)
  dump_infos-last_flag labels found f ls (d ∷ ds) (h, hs) =
      let ks = labels_of fl labels h.id in
      let states = zero_states fl ks ++ state_writes fl ks d.state in
      let (ends, shows) =
        dump_infos-last_flag labels
          (if beq ks ls then some (bit (is_among (name_of f) d.state)) else found) f ls ds hs in
      rw (dump_info_lem labels d h) (
        ends,
        last_write-append (shown_by f) ls found
              (write osd_in ks h.is_in ∷ write osd_up ks h.is_up ∷ states)
              (dump_infos fl labels ds).0
            ∙ ap (λ o. last_write (shown_by f) ls o (dump_infos fl labels ds).0)
                (last_write-info f ks ls found h.is_in h.is_up states
                  ∙ last_write-states f ks ls found d.state)
            ∙ shows,
      )
