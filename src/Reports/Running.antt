-- ===== src/Reports/Running.antt =====
-- Appeals, pardons and decisions, interleaved in any order.
use learn_nest_js.Shared.{ℕ, ◌≡◌, true, String, Option, List, [], ◌∷◌, Memᴰ}
use learn_nest_js.Shared.Platform.{Platform}
use learn_nest_js.Shared.Documents.{Each, Each-refl, Each-trans, Each-mem}
use learn_nest_js.Schemas.{UserRole, Report}
use learn_nest_js.World.{World}
use learn_nest_js.Reports.Resolve.{Passwords, ResolveDto, resolve}
use learn_nest_js.Reports.Appeal.{AppealTokens, EvidenceImages, appeal}
use learn_nest_js.Reports.Admin.{unban, unmute, clear_strike}
use learn_nest_js.Reports.Lifecycle.{
  Later, Later-refl, Later-trans, Unique, Unique-kept, is_closed, Steps-closed,
}
use learn_nest_js.Reports.Resolution.{resolve-Follows}
use learn_nest_js.Reports.Pardoning.{unban-Follows, unmute-Follows, clear_strike-Follows}
use learn_nest_js.Reports.Appealing.{appeal-Follows}

-- A request of an administrator, or of the user that was reported; `elapses` is the clock.
pub data Request (File Header : Type 0) : Type 0 where
  resolves :
      (report : String) (dto : ResolveDto) (by : String) (role : UserRole) → Request File Header
  appeals :
      (report : String) (authorization : Option Header) (files : List File) → Request File Header
  unbans unmutes clears :
      (target by : String) (role : UserRole) (password : String) → Request File Header
  elapses : (now : ℕ) → Request File Header

module _ (m : Platform) (passwords : Passwords) (tokens : AppealTokens)
    (images : EvidenceImages) where
  unfoldable pub serve : Request images.File tokens.Header → World → World
  serve (resolves id dto by role) w = (resolve m passwords id dto by role w).1
  serve (appeals id authorization files) w = (appeal m tokens images id authorization files w).1
  serve (unbans target by role raw) w = (unban m passwords target by role raw w).1
  serve (unmutes target by role raw) w = (unmute m passwords target by role raw w).1
  serve (clears target by role raw) w = (clear_strike m passwords target by role raw w).1
  serve (elapses now) w = record w { now = now }

  unfoldable pub serve_all : List (Request images.File tokens.Header) → World → World
  serve_all [] w = w
  serve_all (r ∷ rs) w = serve_all rs (serve r w)

  serve-Later :
      (r : Request images.File tokens.Header) (w : World)
      → Unique w.reports
      → Each Later w.reports (serve r w).reports
  unfolding serve
  serve-Later (resolves id dto by role) w unique =
      resolve-Follows m passwords id dto by role w unique
  serve-Later (appeals id authorization files) w unique =
      appeal-Follows m tokens images id authorization files w unique
  serve-Later (unbans target by role raw) w unique =
      unban-Follows m passwords target by role raw w unique
  serve-Later (unmutes target by role raw) w unique =
      unmute-Follows m passwords target by role raw w unique
  serve-Later (clears target by role raw) w unique =
      clear_strike-Follows m passwords target by role raw w unique
  serve-Later (elapses now) w unique = Each-refl Later Later-refl w.reports

  -- Where no two reports have one id: whatever decisions, appeals, pardons and cleared strikes are
  -- asked for, in any order, granted or refused, the reports stay, in their order, with the same
  -- ids, reporters, targets and reasons; and each has moved only along the machine (pending, then
  -- resolved or dismissed; resolved, then dismissed or under appeal; under appeal, then rejected
  -- or acquitted).
  pub serve_all-Later :
      (rs : List (Request images.File tokens.Header)) (w : World)
      → Unique w.reports
      → Each Later w.reports (serve_all rs w).reports
  unfolding serve_all
  serve_all-Later [] w unique = Each-refl Later Later-refl w.reports
  serve_all-Later (r ∷ rs) w unique =
      let first = serve-Later r w unique in
      let v = serve r w in
      Each-trans Later Later-trans w.reports v.reports (serve_all rs v).reports first
        (serve_all-Later rs v (Unique-kept w.reports v.reports first unique))

  -- Where no two reports have one id: a report that is dismissed, or whose appeal was rejected or
  -- granted, is still there with the same status after any requests.
  pub serve_all-closed :
      (rs : List (Request images.File tokens.Header)) (w : World) (a : Report)
      → Unique w.reports
      → Memᴰ a w.reports
      → is_closed a.status ≡ true
      → (b : Report) × Memᴰ b (serve_all rs w).reports × (b.id ≡ a.id) × (b.status ≡ a.status)
  serve_all-closed rs w a unique here closed =
      let (b, there, h) =
        Each-mem Later w.reports (serve_all rs w).reports (serve_all-Later rs w unique) here in
      (b, there, h.same_id, Steps-closed h.steps closed)
