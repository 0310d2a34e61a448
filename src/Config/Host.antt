-- ===== src/Config/Host.antt =====
-- crates/avash/src/lib.rs: `SshHost`, and the messages of the errors that its functions return.
use avash.Base.{ℕ, ◌≡◌, refl, ◌⊎◌, inl, inr, Option, none, List, []}
use avash.Base.Text.{Text}

pub record SshHost : Type 0 where
  pub alias : Text
  pub hostname : Option Text
  pub user : Option Text
  pub port : Option ℕ
  pub identity_file : Option Text
  pub proxy_jump : Option Text
  pub tags : List Text
  pub folder : Text

-- `SshHost { alias, ..Default::default() }`
abbrev pub new_host : Text → SshHost
new_host a = record {
  alias = a;
  hostname = none;
  user = none;
  port = none;
  identity_file = none;
  proxy_jump = none;
  tags = [];
  folder = [];
}

-- One constructor for each message; its arguments are what the message quotes.
pub data Error : Type 0 where
  control_char : Text → ℕ → Error
  double_quote : Text → Error
  inner_space : Text → Text → Error
  empty_alias empty_name wildcard unreadable : Error
  already_declared : Text → Error
  several_aliases : Text → Error
  not_found : Text → Error

pub data Result {ℓ} (A : Type ℓ) : Type ℓ where
  ok : A → Result A
  err : Error → Result A

pub Result-cases {ℓ} :
    {A : Type ℓ} (m : Result A) → ((a : A) × (m ≡ ok a)) ⊎ ((e : Error) × (m ≡ err e))
Result-cases (ok a) = inl (a, refl)
Result-cases (err e) = inr (e, refl)

infixl 5 ◌>>=◌ ◌>>◌
-- The operator `?` on an `anyhow::Result`: an error ends the function, a value goes on.
abbrev pub ◌>>=◌ {ℓ κ} : {T : Type ℓ} {U : Type κ} → Result T → (T → Result U) → Result U
err e >>= next = err e
ok x >>= next = next x

abbrev pub ◌>>◌ {κ} : {U : Type κ} → Result (Unit {0}) → Result U → Result U
check >> next = check >>= λ _. next

-- What `read_to_string` gives: no file (`NotFound`), any other error, or the text.
pub data FileRead : Type 0 where
  absent unreadable_file : FileRead
  content : Text → FileRead

-- `anyhow::Result<()>`
abbrev pub Checked : Type 0
Checked = Result (Unit {0})
