-- ===== src/Attribution/Engine.antt =====
-- backend/src/services/attribution: the strategies that look for the user of an order, the chain of them
-- in engine.py, and dao/click_log_dao.py. Times are counts of seconds.
use gaking.Base.{
  ℕ, ◌-◌, ◌*◌, Bool, true, false, Option, none, some, List, [], ◌∷◌, ltb, leb, ◌==◌, not, ◌&&◌,
  ◌||◌, if◌then◌else◌,
}
use gaking.Store.Types.{AbnormalOrder, ClickLog}
use gaking.Store.Session.{Action, ◌>>=◌, ◌>>◌, pure, gets, modify, commit}
use Prim.Native.String.{String}
use text.Mathlib.Text.{◌==◌ as str_eq}

-- What a strategy is asked about: an order of a channel, and the time of its payment.
pub record Sought : Type 0 where
  pub out_order_no : String
  pub goods_id : String
  pub channel_code : String
  pub pay_time : Option ℕ

-- `MatchResult`, without what is only logged
pub record MatchResult : Type 0 where
  pub user_id : ℕ
  pub matched_key : String
  pub reason : Option String

unfoldable pub is_matched : MatchResult → Bool
is_matched m = ltb 0 m.user_id

abbrev pub unmatched : String → MatchResult
unmatched reason = record { user_id = 0; matched_key = ""; reason = some reason }

abbrev pub no_click : String
no_click = "72小时窗口内无匹配点击记录"

unfoldable pub is_empty : String → Bool
is_empty String.[] = true
is_empty _ = false

-- a click on the goods since a time, through the channel if one is given
unfoldable pub is_recent : Sought → ℕ → ClickLog → Bool
unfolding is_empty
is_recent q cutoff c =
    str_eq c.goods_id q.goods_id
    && leb cutoff c.access_time
    && (is_empty q.channel_code || str_eq c.source_channel q.channel_code)

-- `ORDER BY access_time DESC`
unfoldable pub insert_click : ClickLog → List ClickLog → List ClickLog
insert_click c [] = c ∷ []
insert_click c (d ∷ ds) =
    let rest = insert_click c ds in if leb d.access_time c.access_time then c ∷ d ∷ ds else d ∷ rest

-- `find_recent_clicks`
unfoldable pub find_recent_clicks : Sought → ℕ → List ClickLog → List ClickLog
unfolding insert_click
find_recent_clicks q cutoff [] = []
find_recent_clicks q cutoff (c ∷ cs) =
    let rest = find_recent_clicks q cutoff cs in
    if is_recent q cutoff c then insert_click c rest else rest

-- ATTRIBUTION_WINDOW_HOURS before the clock
unfoldable pub cutoff_of : ℕ → ℕ
cutoff_of now = now - 72 * 3600

has_other_user : ℕ → List ClickLog → Bool
has_other_user u [] = false
has_other_user u (c ∷ cs) = not (c.user_id == u) || has_other_user u cs

-- the last click, and whether other users clicked too
unfoldable pub latest : List ClickLog → MatchResult
unfolding has_other_user
latest [] = unmatched no_click
latest (c ∷ cs) = record {
  user_id = c.user_id;
  matched_key = c.short_key;
  reason = if has_other_user c.user_id cs then some "72小时窗口内存在多个用户点击记录，无法自动归属" else none;
}

-- ShortLinkAttributionStrategy.resolve_user
unfoldable pub short_link : List ClickLog → ℕ → Sought → MatchResult
unfolding is_empty latest
short_link clicks now q =
    if is_empty q.goods_id
    then unmatched "goods_id 为空"
    else latest (find_recent_clicks q (cutoff_of now) clicks)

-- RelationIdAttributionStrategy.resolve_user
unfoldable pub relation_id : Sought → MatchResult
relation_id q = unmatched "relation-id 模式未启用（预留策略）"

-- A strategy that raises gives none.
abbrev pub Strategy : Type 0
Strategy = Sought → Option MatchResult

-- The body of the chain's loop, and the result once every strategy has failed.
unfoldable pub choose : Option MatchResult → MatchResult → MatchResult
unfolding is_matched
choose none later = later
choose (some m) later = if is_matched m then m else later

-- AttributionEngine.resolve_user
unfoldable pub resolve_user : List Strategy → Sought → MatchResult
unfolding choose
resolve_user [] q = unmatched no_click
resolve_user (f ∷ fs) q = choose (f q) (resolve_user fs q)

-- `_register_default_strategies`
unfoldable pub default_strategies : List ClickLog → ℕ → List Strategy
default_strategies clicks now =
    (λ q. some (short_link clicks now q)) ∷ (λ q. some (relation_id q)) ∷ []

-- `abnormal_dao.get_by_out_order_no`
unfoldable pub is_abnormal : String → List AbnormalOrder → Bool
is_abnormal order_no [] = false
is_abnormal order_no (a ∷ rest) = str_eq a.out_order_no order_no || is_abnormal order_no rest

reason_of : Option String → String
reason_of none = no_click
reason_of (some reason) = reason

unfoldable pub abnormal_of : Sought → MatchResult → AbnormalOrder
unfolding reason_of
abnormal_of q m = record {
  out_order_no = q.out_order_no;
  channel_code = q.channel_code;
  abnormal_reason = reason_of m.reason;
  matched_user_id = m.user_id;
  review_status = "PENDING";
}

-- `save_abnormal_order`
unfoldable pub save_abnormal_order : Sought → MatchResult → Action (Unit {0})
save_abnormal_order q m = do
  known ← gets (λ t. is_abnormal q.out_order_no t.abnormal_orders)
  if known then pure tt else (do
    modify (λ t. record t { abnormal_orders = abnormal_of q m ∷ t.abnormal_orders })
    commit)
