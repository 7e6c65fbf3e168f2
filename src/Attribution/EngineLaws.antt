-- ===== src/Attribution/EngineLaws.antt =====
-- The last click decides which user an order of a channel belongs to.
use gaking.Base.{
  ℕ, ◌≤◌, true, false, none, some, List, [], ◌∷◌, ◌++◌, ◌≡◌, refl, ap, sym, subst, ◌∙◌, leb, ◌⊎◌,
  inl, inr, arith, Bool-cases,
}
use gaking.Store.Types.{ClickLog}
use gaking.Attribution.Engine.{
  Sought, Strategy, MatchResult, is_matched, is_empty, is_recent, insert_click, find_recent_clicks,
  cutoff_of, latest, short_link, relation_id, resolve_user, choose, default_strategies,
}
use mathlib.Core.List.{Memᴰ}
use mathlib.Core.List.Memᴰ

true-false : ¬ (true ≡ false)
true-false h = cc

-- No click of a list is later than a time.
abbrev UpTo : ℕ → List ClickLog → Type 0
UpTo t [] = Unit
UpTo t (c ∷ cs) = (c.access_time ≤ t) × UpTo t cs

abbrev IsDescending : List ClickLog → Type 0
IsDescending [] = Unit
IsDescending (c ∷ cs) = UpTo c.access_time cs × IsDescending cs

UpTo-later : (t u : ℕ) (cs : List ClickLog) → t ≤ u → UpTo t cs → UpTo u cs
UpTo-later t u [] le h = tt
UpTo-later t u (c ∷ cs) le h = (omega (arith, le, h.0), UpTo-later t u cs le h.1)

insert_click-UpTo :
    (t : ℕ) (c : ClickLog) (cs : List ClickLog)
    → c.access_time ≤ t
    → UpTo t cs
    → UpTo t (insert_click c cs)
unfolding insert_click
insert_click-UpTo t c [] le h = (le, tt)
insert_click-UpTo t c (d ∷ ds) le h = elim (Bool-cases (leb d.access_time c.access_time)) [
  | inl before ↦ rw before (le, h)
  | inr after ↦ rw after (h.0, insert_click-UpTo t c ds le h.1)
]

insert_click-IsDescending :
    (c : ClickLog) (cs : List ClickLog) → IsDescending cs → IsDescending (insert_click c cs)
unfolding insert_click
insert_click-IsDescending c [] h = (tt, tt)
insert_click-IsDescending c (d ∷ ds) h = elim (Bool-cases (leb d.access_time c.access_time)) [
  | inl before ↦
      let le : d.access_time ≤ c.access_time = ground (arith, before) in
      rw before ((le, UpTo-later d.access_time c.access_time ds le h.0), h)
  | inr after ↦ rw after (
    insert_click-UpTo d.access_time c ds (ground (arith, after)) h.0,
    insert_click-IsDescending c ds h.1,
  )
]

find_recent_clicks-IsDescending :
    (q : Sought) (cutoff : ℕ) (cs : List ClickLog) → IsDescending (find_recent_clicks q cutoff cs)
unfolding find_recent_clicks
find_recent_clicks-IsDescending q cutoff [] = tt
find_recent_clicks-IsDescending q cutoff (c ∷ cs) = elim (Bool-cases (is_recent q cutoff c)) [
  | inl recent ↦ rw recent (
      insert_click-IsDescending c (find_recent_clicks q cutoff cs)
        (find_recent_clicks-IsDescending q cutoff cs))
  | inr old ↦ rw old (find_recent_clicks-IsDescending q cutoff cs)
]

-- What an insertion holds, and all that it holds.
mem-insert_click :
    (x c : ClickLog) (cs : List ClickLog) → Memᴰ x (c ∷ cs) → Memᴰ x (insert_click c cs)
unfolding insert_click
mem-insert_click x c [] h = h
mem-insert_click x c (d ∷ ds) h = elim (Bool-cases (leb d.access_time c.access_time)) [
  | inl before ↦ rw before h
  | inr after ↦ rw after (elim (Memᴰ.cases_cons h) [
    | inl same ↦ Memᴰ.tail (mem-insert_click x c ds (Memᴰ.head same))
    | inr later ↦ elim (Memᴰ.cases_cons later) [
      | inl same ↦ Memᴰ.head same
      | inr deep ↦ Memᴰ.tail (mem-insert_click x c ds (Memᴰ.tail deep))
    ]
  ])
]

insert_click-mem :
    (x c : ClickLog) (cs : List ClickLog) → Memᴰ x (insert_click c cs) → (x ≡ c) ⊎ Memᴰ x cs
unfolding insert_click
insert_click-mem x c [] h = Memᴰ.cases_cons h
insert_click-mem x c (d ∷ ds) h = elim (Bool-cases (leb d.access_time c.access_time)) [
  | inl before ↦ Memᴰ.cases_cons (rw before at h)
  | inr after ↦ elim (Memᴰ.cases_cons (rw after at h)) [
    | inl same ↦ inr (Memᴰ.head same)
    | inr later ↦ elim (insert_click-mem x c ds later) [
      | inl same ↦ inl same
      | inr deep ↦ inr (Memᴰ.tail deep)
    ]
  ]
]

-- The clicks found are the recent ones of all.
mem-find_recent_clicks :
    (q : Sought) (cutoff : ℕ) (x : ClickLog) (cs : List ClickLog)
    → Memᴰ x cs
    → is_recent q cutoff x ≡ true
    → Memᴰ x (find_recent_clicks q cutoff cs)
unfolding find_recent_clicks
mem-find_recent_clicks q cutoff x [] m r = absurd (Memᴰ.not-nil m)
mem-find_recent_clicks q cutoff x (c ∷ cs) m r = elim (Bool-cases (is_recent q cutoff c)) [
  | inl recent ↦ rw recent (
      mem-insert_click x c (find_recent_clicks q cutoff cs) (elim (Memᴰ.cases_cons m) [
        | inl same ↦ Memᴰ.head same
        | inr later ↦ Memᴰ.tail (mem-find_recent_clicks q cutoff x cs later r)
      ]))
  | inr old ↦ rw old (elim (Memᴰ.cases_cons m) [
    | inl same ↦ absurd (true-false (sym r ∙ ap (is_recent q cutoff) same ∙ old))
    | inr later ↦ mem-find_recent_clicks q cutoff x cs later r
  ])
]

find_recent_clicks-mem :
    (q : Sought) (cutoff : ℕ) (x : ClickLog) (cs : List ClickLog)
    → Memᴰ x (find_recent_clicks q cutoff cs)
    → Memᴰ x cs × (is_recent q cutoff x ≡ true)
unfolding find_recent_clicks
find_recent_clicks-mem q cutoff x [] m = absurd (Memᴰ.not-nil m)
find_recent_clicks-mem q cutoff x (c ∷ cs) m = elim (Bool-cases (is_recent q cutoff c)) [
  | inl recent ↦ elim (insert_click-mem x c (find_recent_clicks q cutoff cs) (rw recent at m)) [
    | inl same ↦ (Memᴰ.head same, ap (is_recent q cutoff) same ∙ recent)
    | inr later ↦
        let found = find_recent_clicks-mem q cutoff x cs later in (Memᴰ.tail found.0, found.1)
  ]
  | inr old ↦
      let found = find_recent_clicks-mem q cutoff x cs (rw old at m) in (Memᴰ.tail found.0, found.1)
]

UpTo-mem : (t : ℕ) (x : ClickLog) (cs : List ClickLog) → UpTo t cs → Memᴰ x cs → x.access_time ≤ t
UpTo-mem t x [] h m = absurd (Memᴰ.not-nil m)
UpTo-mem t x (c ∷ cs) h m = elim (Memᴰ.cases_cons m) [
  | inl same ↦ subst (λ y. y.access_time ≤ t) (sym same) h.0
  | inr later ↦ UpTo-mem t x cs h.1 later
]

-- A recent click, and none of the recent ones is later.
abbrev pub IsLastClick : Sought → ℕ → List ClickLog → ClickLog → Type 0
IsLastClick q now clicks c =
    Memᴰ c clicks
    × (is_recent q (cutoff_of now) c ≡ true)
    × ((d : ClickLog)
        → Memᴰ d clicks
        → is_recent q (cutoff_of now) d ≡ true
        → d.access_time ≤ c.access_time)

first-IsLastClick :
    (q : Sought) (now : ℕ) (clicks : List ClickLog) (c : ClickLog) (cs : List ClickLog)
    → find_recent_clicks q (cutoff_of now) clicks ≡ c ∷ cs
    → IsLastClick q now clicks c
first-IsLastClick q now clicks c cs e =
    let found = find_recent_clicks-mem q (cutoff_of now) c clicks (rw e (Memᴰ.head refl)) in
    let falling : IsDescending (c ∷ cs) =
      subst IsDescending e (find_recent_clicks-IsDescending q (cutoff_of now) clicks) in
    (
      found.0,
      found.1,
      λ d m r.
          elim (Memᴰ.cases_cons
            (subst (Memᴰ d) e (mem-find_recent_clicks q (cutoff_of now) d clicks m r))) [
              | inl same ↦ omega (arith, ap (λ y. y.access_time) same)
              | inr later ↦ UpTo-mem c.access_time d cs falling.0 later
            ],
    )

clicks-cases :
    (l : List ClickLog) → (l ≡ []) ⊎ ((c : ClickLog) × (cs : List ClickLog) × (l ≡ c ∷ cs))
clicks-cases [] = inl refl
clicks-cases (c ∷ cs) = inr (c, cs, refl)

-- Every strategy raises, or answers with no user.
abbrev pub FindNobody : List Strategy → Sought → Type 0
FindNobody [] q = Unit
FindNobody (g ∷ gs) q =
    ((g q ≡ none) ⊎ ((m : MatchResult) × (g q ≡ some m) × (is_matched m ≡ false))) × FindNobody gs q

short_link-IsLastClick :
    (clicks : List ClickLog) (now : ℕ) (q : Sought)
    → is_matched (short_link clicks now q) ≡ true
    → (c : ClickLog) × (IsLastClick q now clicks c
        × ((short_link clicks now q).user_id ≡ c.user_id))
unfolding short_link latest is_matched
short_link-IsLastClick clicks now q m = elim (Bool-cases (is_empty q.goods_id)) [
  | inl nothing ↦ absurd (ground (arith, nothing, m))
  | inr goods ↦ elim (clicks-cases (find_recent_clicks q (cutoff_of now) clicks)) [
    | inl none_found ↦ absurd (ground (arith, goods, none_found, m))
    | inr (c, cs, e) ↦ (c, (first-IsLastClick q now clicks c cs e, ground (arith, goods, e)))
  ]
]

-- An order that the default strategies give to a user goes to the user of a click on its goods, through
-- its channel if it names one, in the last 72 hours of the clock, such that no other such click is later.
pub resolve_user-IsLastClick :
    (clicks : List ClickLog) (now : ℕ) (q : Sought)
    → is_matched (resolve_user (default_strategies clicks now) q) ≡ true
    → let m = resolve_user (default_strategies clicks now) q in
      (c : ClickLog) × (IsLastClick q now clicks c × (m.user_id ≡ c.user_id))
unfolding resolve_user choose default_strategies relation_id is_matched
resolve_user-IsLastClick clicks now q m =
    let unfound : is_matched (relation_id q) ≡ false = ground arith in
    elim (Bool-cases (is_matched (short_link clicks now q))) [
      | inl matched ↦
          let (c, (last, same)) = short_link-IsLastClick clicks now q matched in
          (c, (last, ground (arith, matched, same)))
      | inr missed ↦ absurd (ground (arith, missed, unfound, m))
    ]

-- A raising strategy counts as one that finds nobody, and the strategies that follow the first match
-- are not asked.
pub resolve_user-first :
    (before after : List Strategy) (f : Strategy) (q : Sought) (m : MatchResult)
    → FindNobody before q
    → f q ≡ some m
    → is_matched m ≡ true
    → resolve_user (before ++ f ∷ after) q ≡ m
unfolding resolve_user choose
resolve_user-first [] after f q m h e matched = ground (arith, e, matched)
resolve_user-first (g ∷ gs) after f q m h e matched =
    let rest = resolve_user-first gs after f q m h.1 e matched in
    elim h.0 [
      | inl raised ↦ ground (arith, raised, rest)
      | inr (x, said, nobody) ↦ ground (arith, said, nobody, rest)
    ]
