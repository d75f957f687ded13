-- ===== src/Datasources/Http.antt =====
-- `reqwest::Client` as the datasources call it. A request that fails gives the error's message.
use cloud_init_rs.Prelude.{ℕ, Bool, true, false, ◌&&◌, List, ◌++◌, ltb, leb}
use cloud_init_rs.Prelude.Texts.{Text, lit}
use cloud_init_rs.Result.{Result, ok, err, Error, Exec, map_err, read_err}
use cloud_init_rs.Result.{http, datasource}

pub data Method : Type 0 where
  get put : Method

pub record Request : Type 0 where
  pub method : Method
  pub url : Text
  pub headers : List (Text × Text)

abbrev pub get_request : Text → List (Text × Text) → Request
get_request url headers = record { method = get; url = url; headers = headers }

-- The status with its text, as it is printed, and the body as `text()` gives it.
pub record Response : Type 0 where
  pub status : ℕ
  pub status_line : Text
  pub text : Result Text Text

-- `StatusCode::is_success`
abbrev pub is_success : Response → Bool
is_success r = leb 200 r.status && ltb r.status 300

pub record Client (S : Type 0) : Type 0 where
  pub send : Request → S → Result Response Text × S

module _ {S : Type 0} (client : Client S) where
  -- `send().await?`
  abbrev pub sent : Request → Exec S Response
  sent r = map_err (client.send r) http

  -- `send().await.is_ok()`
  unfoldable pub reached : Request → S → Bool × S
  reached r s =
      let (answer, s') = client.send r s in (elim answer [ ok a ↦ true | err e ↦ false ], s')

-- `text().await?`
abbrev pub text_of : {S : Type 0} → Response → Exec S Text
text_of r = read_err (λ s. r.text) http

-- `Failed to fetch {}: {}`
unfoldable pub not_fetched : Text → Response → Error
unfolding lit
not_fetched what r = datasource (lit "Failed to fetch " ++ (what ++ (lit ": " ++ r.status_line)))
