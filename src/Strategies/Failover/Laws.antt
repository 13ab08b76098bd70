-- ===== src/Strategies/Failover/Laws.antt =====
-- What failover picks, and that it stays with the account it picked.
use mathlib.Core.Bool.{false≢true}
use mathlib.Core.Option.{some-injective}
use qlb.Base.{
  ℕ, ◌≤◌, ◌≡◌, ◌≢◌, refl, sym, ap, ◌∙◌, ◌↔◌, inl, inr, Bool, true, false, Option, none, some, List,
  [], ◌∷◌, Memᴰ, Text, text_eq_iff, All, Bool-cases, Option-cases, arith, filter, find, sort,
}
use qlb.Base.Sorting.{mem_of_mem-filter, filter-nil_iff, mem_of_mem-sort, sort-nil, find-some}
use qlb.Types.{BucketReading, AccountSnapshot}
use qlb.Scoring.{all_in_ceiling, failover, relevant_buckets, bucket_at}
use qlb.Overrides.{failover_config_key}
use qlb.Store.{Store}
use qlb.Store.Config.{get_config, set_config, get-set_config}
use qlb.Strategies.Pick.{
  logged, Quiet, StrategyPick, by_account_id, reported, find_unique_codex_alias,
}
use qlb.Strategies.Failover.{
  at_limit, below_limit, has_failover_headroom, stored, id_is, alias_among, first_some,
  current_account, remember, stick_or_move, failover_among, pick_failover,
}

-- The accounts that failover may stay with, in the order of their ids.
abbrev pub eligible : List AccountSnapshot → Text → List AccountSnapshot
eligible ss m = sort by_account_id (filter (λ s. has_failover_headroom s m) ss)

mem-eligible :
    (ss : List AccountSnapshot) (m : Text) {s : AccountSnapshot}
    → Memᴰ s (eligible ss m)
    → Memᴰ s ss × (has_failover_headroom s m ≡ true)
mem-eligible ss m mem =
    mem_of_mem-filter (λ s. has_failover_headroom s m) ss
      (mem_of_mem-sort by_account_id (filter (λ s. has_failover_headroom s m) ss) mem)

alias_among-mem :
    (es : List AccountSnapshot) (o : Option AccountSnapshot) {a : AccountSnapshot}
    → alias_among es o ≡ some a
    → Memᴰ a es
unfolding alias_among
alias_among-mem es none e = cc
alias_among-mem es (some b) e = (find-some (id_is b.account_id) es e).0

current-mem :
    (o : Option Text) (es al : List AccountSnapshot) {a : AccountSnapshot}
    → current_account o es al ≡ some a
    → Memᴰ a es
unfolding current_account
current-mem none es al e = cc
current-mem (some []) es al e = cc
current-mem (some (c ∷ id)) es al {a} e = elim (Option-cases (find (id_is (c ∷ id)) es)) [
  | inl miss ↦ alias_among-mem es (find_unique_codex_alias (c ∷ id) al) (rw (miss, first_some) at e)
  | inr (b, hit) ↦ (find-some (id_is (c ∷ id)) es (hit ∙ (rw (hit, first_some) at e))).0
]

among-cases :
    (f : AccountSnapshot) (es : List AccountSnapshot) (m : Text) (st : Option Store)
    (persist : Bool) (al : List AccountSnapshot) {p : StrategyPick}
    → (failover_among (f ∷ es) m st persist al).1 ≡ some p
    → (s : AccountSnapshot) × Memᴰ s (f ∷ es) × (p ≡ reported failover s m)
unfolding failover_among
among-cases f es m st persist al {p} e =
    let o = current_account (stored st (failover_config_key f.provider)) (f ∷ es) al in
    elim (Option-cases o) [
      | inl gone ↦ (f, Memᴰ.head refl, sym (some-injective _ p (rw (gone, stick_or_move) at e)))
      | inr (a, kept) ↦ (
        a,
        current-mem (stored st (failover_config_key f.provider)) (f ∷ es) al kept,
        sym (some-injective _ p (rw (kept, stick_or_move) at e)),
      )
    ]

-- Failover picks an account of the list that has failover headroom.
pub pick_failover-eligible :
    (ss : List AccountSnapshot) (m : Text) (st : Option Store) (persist : Bool)
    (al : List AccountSnapshot) {p : StrategyPick}
    → (pick_failover ss m st persist al).1 ≡ some p
    → Memᴰ p.snapshot ss × (has_failover_headroom p.snapshot m ≡ true)
unfolding pick_failover
pick_failover-eligible ss m st persist al {p} e = go (eligible ss m) refl e
  where
    go :
        (es : List AccountSnapshot)
        → eligible ss m ≡ es
        → (failover_among es m st persist al).1 ≡ some p
        → Memᴰ p.snapshot ss × (has_failover_headroom p.snapshot m ≡ true)
    go [] same h = cc
    go (f ∷ es) same h =
        let (s, mem, is) = among-cases f es m st persist al h in
        rw is (mem-eligible ss m (rw same mem))

among-none :
    (es : List AccountSnapshot) (m : Text) (st : Option Store) (persist : Bool)
    (al : List AccountSnapshot)
    → ((failover_among es m st persist al).1 ≡ none) ↔ (es ≡ [])
unfolding failover_among
among-none [] m st persist al = (λ _. refl, λ _. refl)
among-none (f ∷ es) m st persist al =
    elim (Option-cases (current_account (stored st (failover_config_key f.provider)) (f ∷ es) al)) [
      | inl gone ↦ rw (gone, stick_or_move) ((λ e. cc), (λ e. cc))
      | inr (a, kept) ↦ rw (kept, stick_or_move) ((λ e. cc), (λ e. cc))
    ]

-- It picks nothing exactly when no account has failover headroom.
pub pick_failover-none_iff :
    (ss : List AccountSnapshot) (m : Text) (st : Option Store) (persist : Bool)
    (al : List AccountSnapshot)
    → ((pick_failover ss m st persist al).1 ≡ none)
      ↔ All (λ s. has_failover_headroom s m ≡ false) ss
unfolding pick_failover
pick_failover-none_iff ss m st persist al =
    let ok = λ (s : AccountSnapshot). has_failover_headroom s m in
    let (to, from) = among-none (eligible ss m) m st persist al in
    let (nil, only_nil) = filter-nil_iff ok ss in
    (
      (λ e. nil (sort-nil by_account_id (filter ok ss) (to e))),
      (λ f. from (ap (sort by_account_id) (only_nil f))),
    )

find-of_mem :
    (id : Text) (es : List AccountSnapshot) {a : AccountSnapshot}
    → Memᴰ a es
    → id_is id a ≡ true
    → (b : AccountSnapshot) × (find (id_is id) es ≡ some b)
find-of_mem id [] mem same = elim mem [ ]
find-of_mem id (x ∷ es) {a} mem same = elim (Bool-cases (id_is id x)) [
  | inl hit ↦ (x, rw hit)
  | inr miss ↦ let (b, e) = find-of_mem id es (drop miss mem) same in (b, rw miss e)
]
  where
    drop : id_is id x ≡ false → Memᴰ a (x ∷ es) → Memᴰ a es
    drop miss (Memᴰ.head e) = absurd (false≢true (sym miss ∙ ap (id_is id) (sym e) ∙ same))
    drop miss (Memᴰ.tail n) = n

current-stays :
    (id : Text) (es al : List AccountSnapshot) {a : AccountSnapshot}
    → id ≢ []
    → Memᴰ a es
    → a.account_id ≡ id
    → (b : AccountSnapshot) × (current_account (some id) es al ≡ some b) × (b.account_id ≡ id)
unfolding current_account
current-stays [] es al ne mem same = absurd (ne refl)
current-stays (c ∷ id) es al ne mem same =
    let (b, e) = find-of_mem (c ∷ id) es mem (unfold id_is in (text_eq_iff _ (c ∷ id)).1 same) in
    (
      b,
      rw (e, first_some),
      (text_eq_iff b.account_id (c ∷ id)).0 (unfold id_is in (find-some (id_is (c ∷ id)) es e).1),
    )

-- While the stored account has failover headroom, failover stays with it and writes nothing, however
-- the other accounts stand and whatever they score.
pub pick_failover-stays :
    (ss : List AccountSnapshot) (m : Text) (st : Store) (persist : Bool) (al : List AccountSnapshot)
    (f : AccountSnapshot) (es : List AccountSnapshot) (id : Text) (a : AccountSnapshot)
    → eligible ss m ≡ f ∷ es
    → get_config st (failover_config_key f.provider) ≡ some id
    → id ≢ []
    → Memᴰ a (f ∷ es)
    → a.account_id ≡ id
    → (b : AccountSnapshot) × (b.account_id ≡ id)
      × (pick_failover ss m (some st) persist al ≡ (some st, some (reported failover b m)))
unfolding pick_failover failover_among
pick_failover-stays ss m st persist al f es id a e cfg ne mem same =
    let (b, kept, is) = current-stays id (f ∷ es) al ne mem same in
    (b, is, rw e (rw cfg (rw (kept, stick_or_move))))

-- A move writes the new account's id, so that the next pick stays with it.
pub pick_failover-remembers :
    (ss : List AccountSnapshot) (m : Text) (st : Store) (al : List AccountSnapshot)
    (f : AccountSnapshot) (es : List AccountSnapshot)
    → eligible ss m ≡ f ∷ es
    → current_account (get_config st (failover_config_key f.provider)) (f ∷ es) al ≡ none
    → f.account_id ≢ []
    → let st' = set_config st (failover_config_key f.provider) f.account_id in
      (pick_failover ss m (some st) true al ≡ (some st', some (reported failover f m)))
      × (b : AccountSnapshot) × (b.account_id ≡ f.account_id)
      × (pick_failover ss m (some st') true al ≡ (some st', some (reported failover b m)))
unfolding pick_failover failover_among
pick_failover-remembers ss m st al f es e gone ne =
    let st' = set_config st (failover_config_key f.provider) f.account_id in
    let (b, is, stays) =
      pick_failover-stays ss m st' true al f es f.account_id f e
        (get-set_config st (failover_config_key f.provider) f.account_id) ne (Memᴰ.head refl)
        refl in
    (rw e (rw (gone, stick_or_move)), b, is, stays)

limit-among :
    (s : AccountSnapshot) (ks : List Text) (k : Text) (b : BucketReading) (used : ℕ)
    → Memᴰ k ks
    → bucket_at s.buckets k ≡ some b
    → b.used_pct ≡ some used
    → all_in_ceiling ≤ used
    → below_limit s ks ≡ false
unfolding below_limit at_limit
limit-among s [] k b used mem at known over = elim mem [ ]
limit-among s (j ∷ ks) k b used (Memᴰ.head e) at known over =
    rw (← e) (rw (at, at_limit) (rw (known, at_limit) (ground arith)))
limit-among s (j ∷ ks) k b used (Memᴰ.tail mem) at known over =
    ground (arith, limit-among s ks k b used mem at known over)

-- A relevant bucket at 100 % shuts an account out of failover, whatever the confidence of the
-- reading: also an advisory one.
pub has_failover_headroom-at_limit :
    (s : AccountSnapshot) (m : Text) (k : Text) (b : BucketReading) (used : ℕ)
    → Memᴰ k (relevant_buckets s m)
    → bucket_at s.buckets k ≡ some b
    → b.used_pct ≡ some used
    → all_in_ceiling ≤ used
    → has_failover_headroom s m ≡ false
unfolding has_failover_headroom
has_failover_headroom-at_limit s m k b used mem at known over =
    rw (limit-among s (relevant_buckets s m) k b used mem at known over) (ground arith)

-- A dry run writes no sticky account.
pub pick_failover-dry :
    (ss : List AccountSnapshot) (m : Text) (st : Option Store) (al : List AccountSnapshot)
    → (pick_failover ss m st false al).0 ≡ st
unfolding pick_failover
pick_failover-dry ss m st al = go (eligible ss m) st
  where
    stays :
        (o : Option AccountSnapshot) (f : AccountSnapshot) (key : Text) (s : Option Store)
        → (stick_or_move o f key m s false).0 ≡ s
    stays none f key none = refl
    stays none f key (some s) = refl
    stays (some a) f key s = refl

    go : (es : List AccountSnapshot) (s : Option Store) → (failover_among es m s false al).0 ≡ s
    go [] s = refl
    go (f ∷ es) s =
        stays (current_account (stored s (failover_config_key f.provider)) (f ∷ es) al) f
          (failover_config_key f.provider) s

stick_or_move-Quiet :
    (o : Option AccountSnapshot) (f : AccountSnapshot) (key m : Text) (store : Option Store)
    (persist : Bool)
    → Quiet store (stick_or_move o f key m store persist)
unfolding stick_or_move
stick_or_move-Quiet none f key m store persist e = cc
stick_or_move-Quiet (some a) f key m store persist e = refl

failover-Quiet :
    (es : List AccountSnapshot) (m : Text) (store : Option Store) (persist : Bool)
    (al : List AccountSnapshot)
    → Quiet store (failover_among es m store persist al)
unfolding failover_among
failover-Quiet [] m store persist al e = refl
failover-Quiet (f ∷ es) m store persist al e =
    stick_or_move-Quiet
      (current_account (stored store (failover_config_key f.provider)) (f ∷ es) al) f
      (failover_config_key f.provider) m store persist e

pub pick_failover-Quiet :
    (ss : List AccountSnapshot) (m : Text) (store : Option Store) (persist : Bool)
    (al : List AccountSnapshot)
    → Quiet store (pick_failover ss m store persist al)
unfolding pick_failover
pick_failover-Quiet ss m store persist al = failover-Quiet (eligible ss m) m store persist al

stick_or_move-logged :
    (o : Option AccountSnapshot) (f : AccountSnapshot) (key m : Text) (store : Option Store)
    (persist : Bool)
    → logged (stick_or_move o f key m store persist).0 ≡ logged store
unfolding stick_or_move remember logged set_config
stick_or_move-logged (some a) f key m store persist = refl
stick_or_move-logged none f key m none persist = refl
stick_or_move-logged none f key m (some store) true = refl
stick_or_move-logged none f key m (some store) false = refl

pub pick_failover-logged :
    (ss : List AccountSnapshot) (m : Text) (store : Option Store) (persist : Bool)
    (al : List AccountSnapshot)
    → logged (pick_failover ss m store persist al).0 ≡ logged store
unfolding pick_failover failover_among
pick_failover-logged ss m store persist al = go (eligible ss m)
  where
    go :
        (es : List AccountSnapshot) → logged (failover_among es m store persist al).0 ≡ logged store
    go [] = refl
    go (f ∷ es) =
        stick_or_move-logged
          (current_account (stored store (failover_config_key f.provider)) (f ∷ es) al) f
          (failover_config_key f.provider) m store persist
