-- ===== src/Controller/Login.antt =====
-- AuthController and SandboxController.Ranges (internal/adapter/controller).
use numflex_sandbox.Prelude.{Bool, List, [], if◌then◌else◌, length, map, some, ℕ, ◌∷◌}
use numflex_sandbox.Controller.Respond.{Call, Handler, bound}
use numflex_sandbox.Entity.Fault.{Fault, bad_credentials, lit, text_piece}
use numflex_sandbox.Entity.Request.{Text, Time}
use numflex_sandbox.Framework.Text.{codes, same_text}
use numflex_sandbox.Gateway.Users.{UserRow}
use numflex_sandbox.Presenter.{Problem, ViewModel}
use numflex_sandbox.Presenter.Modes.{Presenter}
use numflex_sandbox.Store.Session.{Env, M, Outcome, World, err, ok, ◌>>=◌}
use numflex_sandbox.Usecase.Auth.{Jwt, authenticate}
use numflex_sandbox.Usecase.Ranges.{CountNumberRangesResult, Nature, RangeView, count_number_ranges}

-- `authRequest`; `rememberMe` is bound and never read
pub record AuthRequest : Type 0 where
  pub username : Text
  pub password : Text
  pub remember_me : Bool

-- What `PostAuthenticate` answers: the token, the fixed problem of a bad login, which no presenter
-- renders, or a rendered failure.
pub data LoginReply : Type 0 where
  id_token : List ℕ → LoginReply
  bad_login : Problem → LoginReply
  login_failure : ViewModel (Unit {0}) → LoginReply

abbrev pub bad_login_problem : Text → Problem
bad_login_problem path = record {
  problem_type = "https://www.jhipster.tech/problem/problem-with-message";
  title = "Unauthorized";
  status = 401;
  detail = lit "Bad credentials" ∷ [];
  path = path;
  message = "error.http.401";
  field_errors = [];
}

abbrev pub login_reply : Presenter → Text → Outcome Fault (List ℕ) × World → LoginReply × World
login_reply p path (ok t, w) = (id_token t, w)
login_reply p path (err f, w) =
    if same_text (codes f.code) (codes bad_credentials.code)
    then (bad_login (bad_login_problem path), w)
    else (login_failure (p.failure (some f) path), w)

-- `numberRangeDTO`
pub record NumberRangeDto : Type 0 where
  pub prefixe : Text
  pub premier : Text
  pub dernier : Text
  pub total : ℕ
  pub nature : Nature

-- What `Ranges` shows.
pub record RangesDto : Type 0 where
  pub operateur : Text
  pub operateur_id : Text
  pub nombre_tranches : ℕ
  pub total_numeros : ℕ
  pub tranches : List NumberRangeDto

abbrev pub number_range_dto : RangeView → NumberRangeDto
number_range_dto r = record {
  prefixe = r.prefix;
  premier = r.first;
  dernier = r.last;
  total = r.total;
  nature = r.nature;
}

abbrev pub ranges_dto : CountNumberRangesResult → RangesDto
ranges_dto out = record {
  operateur = out.operator;
  operateur_id = out.operator_id;
  nombre_tranches = length (map number_range_dto out.ranges);
  total_numeros = out.total;
  tranches = map number_range_dto out.ranges;
}

-- its response, whose message ends with the operator's name
abbrev pub respond_ranges :
    Presenter → Text → Outcome Fault CountNumberRangesResult × World → ViewModel RangesDto × World
respond_ranges p path (ok out, w) = (
  p.success 200 (lit "Tranches de l'opérateur " ∷ text_piece out.operator ∷ []) (ranges_dto out),
  w,
)
respond_ranges p path (err f, w) = (p.failure (some f) path, w)

module _ (env : Env) (p : Presenter) where
  module _ (users : List UserRow) (compare : Text → Text → Bool) (jwt : Jwt) (secret : Text)
      (ttl : Time) where
    -- `PostAuthenticate` up to its response
    unfoldable pub login_run : Call AuthRequest → M Fault (List ℕ)
    login_run c = do
      req ← bound c
      authenticate env users compare jwt secret ttl req.username req.password

    -- `PostAuthenticate`
    unfoldable pub post_login : Call AuthRequest → World → LoginReply × World
    post_login c w = login_reply p c.path (login_run c w)

  -- `Ranges`, of the parameter `operateur`
  unfoldable pub get_ranges :
      (Text → Text) → (Text → Text) → (Text → Text) → Text → Call (Unit {0}) → Handler RangesDto
  get_ranges upper trim prefix_of operator c w =
      respond_ranges p c.path (count_number_ranges upper trim prefix_of env operator w)
