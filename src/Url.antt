-- ===== src/Url.antt =====
-- What the program reads of `urlsplit` and of two string methods of the standard library, which the
-- definitions that check URLs take.
use my_auth.Result.{Result}
use my_auth.Text.{Text}
use my_auth.Prelude.{Option, ℕ}

pub record Parts : Type 0 where
  pub scheme : Text
  pub netloc : Text
  pub path : Text
  pub query : Text
  pub fragment : Text
  pub username : Option Text
  pub password : Option Text
  pub hostname : Option Text
  -- reading the port of a netloc that has no proper one raises ValueError
  pub port : Result (Option ℕ)

pub record Urls : Type 0 where
  pub urlsplit : Text → Result Parts
  pub casefold : Text → Text
  pub lower : Text → Text
