-- ===== src/Wire/Exchange.antt =====
-- `greet`, `answer` and `receive` of crates/curfew-sync/src/wire.rs: one round between two devices.
use curfew.Prelude.{
  ℕ, ◌≤◌, ◌<◌, ◌≡◌, refl, sym, ap, ap₂, ◌∙◌, subst, Bool, true, false, none, List, [], ◌∷◌, ◌++◌,
  map, inl, inr, arith, Bool-cases, ltb, max,
}
use curfew.Prelude.Lists.{
  filter-append, All, All-map, All-filter, filter, last, insert_by, sort_by, filter_same,
  filter_none,
}
use curfew.Prelude.Order.{list_ord, nat_ord, pair_ord, list_eq, list_eq→eq, beq_symm}
use curfew.Prelude.I64.{u64_mod}
use curfew.Prelude.Map
use curfew.Prelude.Map.{BTreeMap, map_ext, get-insert}
use curfew.Device.{Crypto, DeviceId}
use curfew.Pair.{Peers}
use curfew.Oplog.{Hash, Entry, Signed, hash}
use curfew.Log.{
  Log, Key, Entries, range, base_of, last_or, head, since, heads, raise_heads, insert_seqs, or_zero,
}
use curfew.Log.Ranges.{get-range}
use curfew.Log.Chains.{IsChain, IsChain-Below, IsValid, AreKeyed, last_or-cons}
use curfew.Wire.{lower_seq, receive, is_verified}
use curfew.Wire.Groups.{by, chain_in}
use curfew.Wire.Chain.{keyed}
use curfew.Wire.Batches.{IsNews, receive-takes_news}

-- The highest number of some entries, from `h` on.
abbrev top : ℕ → Entries → ℕ
top h [] = h
top h (e ∷ es) = top (max h e.0.1) es

get-raise_heads :
    (a : DeviceId) (hs : BTreeMap DeviceId ℕ) (m : Entries)
    → or_zero (Map.get a (raise_heads hs m)) ≡ top (or_zero (Map.get a hs)) (range a m)
unfolding raise_heads
get-raise_heads a hs [] = refl
get-raise_heads a hs (((b, n), s) ∷ m) =
    let hs' = Map.insert b (max (or_zero (Map.get b hs)) n) hs in
    get-raise_heads a hs' m
    ∙ rw (get-insert a b (max (or_zero (Map.get b hs)) n) hs) (elim (Bool-cases (list_eq b a)) [
      | inl e ↦
          let same : b ≡ a = list_eq→eq b a e in
          rw (e, beq_symm a b, e) (ap (λ z. top (max (or_zero (Map.get z hs)) n) (range a m)) same)
      | inr e ↦ rw (e, beq_symm a b, e)
    ])

-- The values of an author's entries in a list of entries, and those of them above a number.
filter-by :
    (a : DeviceId) (m : Entries)
    → AreKeyed m
    → filter (by a) (map (λ e. e.1) m) ≡ map (λ e. e.1) (range a m)
filter-by a [] k = refl
filter-by a (e ∷ m) k =
    let same : by a e.1 ≡ list_eq e.0.0 a =
      beq_symm a e.1.entry.author ∙ ap (λ z. list_eq z.0 a) (sym k.0) in
    elim (Bool-cases (list_eq e.0.0 a)) [
      | inl h ↦ rw (same, h) (ap (◌∷◌ e.1) (filter-by a m k.1))
      | inr h ↦ rw (same, h) (filter-by a m k.1)
    ]

abbrev above : ℕ → Key × Signed → Bool
above n e = ltb n e.0.1

range-since :
    (a : DeviceId) (hs : BTreeMap DeviceId ℕ) (m : Entries)
    → range a (filter (λ e. ltb (or_zero (Map.get e.0.0 hs)) e.0.1) m)
      ≡ filter (above (or_zero (Map.get a hs))) (range a m)
range-since a hs [] = refl
range-since a hs (e ∷ m) = elim (Bool-cases (list_eq e.0.0 a)) [
  | inl h ↦
      let same : e.0.0 ≡ a = list_eq→eq e.0.0 a h in
      let test : ltb (or_zero (Map.get e.0.0 hs)) e.0.1 ≡ above (or_zero (Map.get a hs)) e =
        ap (λ z. ltb (or_zero (Map.get z hs)) e.0.1) same in
      elim (Bool-cases (above (or_zero (Map.get a hs)) e)) [
        | inl k ↦ rw (h, test, k, h) (ap (◌∷◌ e) (range-since a hs m))
        | inr k ↦ rw (h, test, k) (range-since a hs m)
      ]
  | inr h ↦ elim (Bool-cases (ltb (or_zero (Map.get e.0.0 hs)) e.0.1)) [
    | inl k ↦ rw (k, h) (range-since a hs m)
    | inr k ↦ rw (k, h) (range-since a hs m)
  ]
]

keyed-values : (m : Entries) → AreKeyed m → keyed (map (λ e. e.1) m) ≡ m
keyed-values [] k = refl
keyed-values (e ∷ m) k = ap₂ (λ x xs. (x, e.1) ∷ xs) (sym k.0) (keyed-values m k.1)

All-values {κ} : (P : Signed → Type κ) (m : Entries) → All (λ e. P e.1) m → All P (map (λ e. e.1) m)
All-values P [] h = tt
All-values P (e ∷ m) h = (h.0, All-values P m h.1)

AreKeyed-right : (xs ys : Entries) → AreKeyed (xs ++ ys) → AreKeyed ys
AreKeyed-right [] ys k = k
AreKeyed-right (x ∷ xs) ys k = AreKeyed-right xs ys k.1

module _ {K X : Type 0} (crypto : Crypto K X) (canonical : Entry → List ℕ) where
  top-IsChain :
      (base : ℕ × Hash) (es : Entries)
      → IsChain crypto canonical base es
      → AreKeyed es
      → top base.0 es ≡ (last_or crypto canonical base (last es)).0
  top-IsChain base [] c k = refl
  top-IsChain base (e ∷ es) c k =
      let next : ℕ × Hash = (e.1.entry.seq, hash crypto canonical e.1.entry) in
      let up : max base.0 e.0.1 ≡ e.1.entry.seq = ground (arith, c.0, ap (λ z. z.1) k.0) in
      ap (λ n. top n es) up
      ∙ top-IsChain next es c.2 k.1
      ∙ ap (λ h. h.0) (sym (last_or-cons crypto canonical base e es))

  IsChain-right :
      (base : ℕ × Hash) (xs ys : Entries)
      → IsChain crypto canonical base (xs ++ ys)
      → IsChain crypto canonical (last_or crypto canonical base (last xs)) ys
  IsChain-right base [] ys c = c
  IsChain-right base (x ∷ xs) ys c =
      subst (λ h. IsChain crypto canonical h ys) (sym (last_or-cons crypto canonical base x xs))
        (IsChain-right (x.1.entry.seq, hash crypto canonical x.1.entry) xs ys c.2)

  IsChain-above :
      (base : ℕ × Hash) (n : ℕ) (es : Entries)
      → n ≤ base.0
      → IsChain crypto canonical base es
      → All (λ e. ltb n e.1.entry.seq ≡ true) es
  IsChain-above base n [] le c = tt
  IsChain-above base n (e ∷ es) le c = (
    ground (arith, c.0),
    IsChain-above (e.1.entry.seq, hash crypto canonical e.1.entry) n es (omega (arith, c.0)) c.2,
  )

  -- A chain is in order.
  sort_by-IsChain :
      (base : ℕ × Hash) (es : Entries)
      → IsChain crypto canonical base es
      → sort_by lower_seq (map (λ e. e.1) es) ≡ map (λ e. e.1) es
  unfolding sort_by insert_by
  sort_by-IsChain base [] c = refl
  sort_by-IsChain base (e ∷ []) c = refl
  sort_by-IsChain base (e ∷ d ∷ es) c =
      let next : ℕ × Hash = (e.1.entry.seq, hash crypto canonical e.1.entry) in
      let later : lower_seq d.1 e.1 ≡ false = ground (arith, c.2.0) in
      ap (insert_by lower_seq e.1) (sort_by-IsChain next (d ∷ es) c.2) ∙ rw later

  -- The heads of a log that was never compacted are the numbers of its heads.
  get-heads :
      (log : Log) (a : DeviceId)
      → IsValid crypto canonical log
      → log.checkpoint ≡ none
      → or_zero (Map.get a (heads log)) ≡ (head crypto canonical log a).0
  unfolding heads insert_seqs head Map.get
  get-heads log a valid e =
      let base = base_of log.checkpoint a in
      let first : base.0 ≡ 0 = rw e in
      rw e (get-raise_heads a [] log.entries)
      ∙ ap (λ n. top n (range a log.entries)) (sym first)
      ∙ top-IsChain base (range a log.entries) (valid.2 a) (All-filter _ _ log.entries valid.1)

  -- One author's entries among those that the other side has not.
  since-IsChain :
      (sender receiver : Log) (a : DeviceId) (extra : Entries)
      → IsValid crypto canonical sender
      → IsValid crypto canonical receiver
      → receiver.checkpoint ≡ none
      → sender.checkpoint ≡ none
      → range a sender.entries ≡ range a receiver.entries ++ extra
      → (filter (by a) (since sender (heads receiver)) ≡ map (λ e. e.1) extra)
        × IsChain crypto canonical (head crypto canonical receiver a) extra
        × AreKeyed extra
  unfolding since
  since-IsChain sender receiver a extra vs vr cr cs split =
      let base = base_of receiver.checkpoint a in
      let held = range a receiver.entries in
      let n = (head crypto canonical receiver a).0 in
      let hs = heads receiver in
      let missing : Key × Signed → Bool = λ e. ltb (or_zero (Map.get e.0.0 hs)) e.0.1 in
      let keys : AreKeyed (held ++ extra) =
        subst AreKeyed split (All-filter _ _ sender.entries vs.1) in
      let extra_keys = AreKeyed-right held extra keys in
      let whole : IsChain crypto canonical base (held ++ extra) =
        subst (λ z. IsChain crypto canonical z (held ++ extra))
          (ap (λ c. base_of c a) (cs ∙ sym cr))
          (subst (IsChain crypto canonical (base_of sender.checkpoint a)) split (vs.2 a)) in
      let chain : IsChain crypto canonical (head crypto canonical receiver a) extra =
        unfold head in IsChain-right base held extra whole in
      let low : All (λ e. above n e ≡ false) held =
        unfold head in
        All-map _ _ held (λ e h. ground (arith, h))
          (IsChain-Below crypto canonical base held (vr.2 a)
            (All-filter _ _ receiver.entries vr.1)) in
      let high : All (λ e. above n e ≡ true) extra =
        keyed_above n extra extra_keys
          (IsChain-above (head crypto canonical receiver a) n extra (omega arith) chain) in
      (
        filter-by a (filter missing sender.entries) (All-filter _ missing sender.entries vs.1)
            ∙ ap (map (λ e. e.1)) (
                range-since a hs sender.entries
                ∙ ap (λ z. filter (above z) (range a sender.entries)) (get-heads receiver a vr cr)
                ∙ ap (filter (above n)) split
                ∙ filter-append (above n) held extra
                ∙ ap₂ ◌++◌ (filter_none (above n) held low) (filter_same (above n) extra high)),
        chain,
        extra_keys,
      )
    where
      keyed_above :
          (n : ℕ) (es : Entries)
          → AreKeyed es
          → All (λ e. ltb n e.1.entry.seq ≡ true) es
          → All (λ e. above n e ≡ true) es
      keyed_above n [] k h = tt
      keyed_above n (e ∷ es) k h = (ap (λ z. ltb n z.1) k.0 ∙ h.0, keyed_above n es k.1 h.1)

  -- A round of sync, between two valid logs that were never compacted, where the
  -- sender holds of each author what the receiver holds and perhaps more, and every entry of the sender
  -- verifies at the receiver and has a 64-bit number, the receiver that greets and takes in the
  -- answer ends with the sender's log, without refusing an entry or being sent one that it holds.
  pub exchange-completes :
      (sender receiver : Log) (peers : Peers) (extra : DeviceId → Entries)
      → IsValid crypto canonical sender
      → IsValid crypto canonical receiver
      → sender.checkpoint ≡ none
      → receiver.checkpoint ≡ none
      → All (λ e. is_verified crypto canonical peers e.1 ≡ true) sender.entries
      → All (λ e. e.1.entry.seq < u64_mod) sender.entries
      → ((a : DeviceId) → range a sender.entries ≡ range a receiver.entries ++ extra a)
      → let (log, out) = receive crypto canonical receiver peers (since sender (heads receiver)) in
        (log ≡ sender) × (out.known ≡ 0) × (out.refused ≡ 0)
  exchange-completes sender receiver peers extra vs vr cs cr verified numbers split =
      let xs = since sender (heads receiver) in
      let chains =
        λ (a : DeviceId). since-IsChain sender receiver a (extra a) vs vr cr cs (split a) in
      let ordered : (a : DeviceId) → keyed (chain_in a xs) ≡ extra a = λ a.
        let (values, chain, keys) = chains a in
        ap (λ z. keyed (sort_by lower_seq z)) values
        ∙ ap keyed (sort_by-IsChain (head crypto canonical receiver a) (extra a) chain)
        ∙ keyed-values (extra a) keys in
      let news : IsNews crypto canonical receiver peers xs = (
        since_all (λ s. is_verified crypto canonical peers s ≡ true) verified,
        since_all (λ s. s.entry.seq < u64_mod) numbers,
        λ a.
            subst (IsChain crypto canonical (head crypto canonical receiver a)) (sym (ordered a))
              (chains a).1,
      ) in
      let taken = receive-takes_news crypto canonical receiver peers xs vr news in
      let log = (receive crypto canonical receiver peers xs).0 in
      let ranges : (a : DeviceId) → range a log.entries ≡ range a sender.entries =
        λ a. taken.1 a ∙ ap (λ z. range a receiver.entries ++ z) (ordered a) ∙ sym (split a) in
      let entries : log.entries ≡ sender.entries =
        map_ext log.entries sender.entries taken.0.0 vs.0 (λ k.
          sym (get-range k log.entries)
          ∙ ap (Map.get k) (ranges k.0)
          ∙ get-range k sender.entries) in
      let checkpoint : log.checkpoint ≡ sender.checkpoint = taken.2 ∙ cr ∙ sym cs in
      (ap₂ (λ e c. record { entries = e; checkpoint = c }) entries checkpoint, taken.3, taken.4)
    where
      since_all :
          (P : Signed → Type 0)
          → All (λ e. P e.1) sender.entries
          → All P (since sender (heads receiver))
      since_all P h =
          unfold since in
          All-values P
            (filter (λ e. ltb (or_zero (Map.get e.0.0 (heads receiver))) e.0.1) sender.entries)
            (All-filter _ _ sender.entries h)
