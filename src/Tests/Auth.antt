-- ===== src/Tests/Auth.antt =====
-- Requests for middleware/auth.py. Digests and numbers are spelled as their inputs are.
use nf_safety_hub.Prelude.{
  ℕ, ◌+◌, ◌-◌, ◌*◌, true, false, some, [], ◌∷◌, is_empty, ◌≡◌, ◌⊎◌, refl, arith,
}
use nf_safety_hub.Prelude.Text.{Text, str, ◌==◌, is_one_of, starts_with, partition}
use nf_safety_hub.Prelude.Text.Decimal.{decimal}
use nf_safety_hub.Prelude.Int.{pos}
use nf_safety_hub.Middleware.Auth.{
  returned, Settings, Request, Toolbox, create_admin_session_cookie, admin_user_from_session_cookie,
  is_unguarded, dispatch, passed_on, is_ascii, split_session_cookie,
}
use nf_safety_hub.Middleware.Auth.Sessions.{Session, admin_user_from_session_cookie-Session}
use nf_safety_hub.Middleware.Auth.RoundTrip.{AreOther, created-accepted}
use nf_safety_hub.Middleware.Auth.Access.{Listed, Admitted, dispatch-Admitted}

abbrev digest : Text → Text → Text
digest secret payload = str "d"

-- reads the texts that `decimal` writes, by what is left of it after a number's digits
abbrev value_of : ℕ → Text → ℕ
value_of n [] = n
value_of n (c ∷ cs) = value_of (n * 10 + (c - 48)) cs

abbrev tools : Toolbox
tools = record {
  hmac_sha256 = digest;
  b64decode = λ s. some s;
  parse_int = λ s. some (pos (value_of 0 s));
  is_ip_address = λ s. true;
  in_network = λ address item. some (starts_with address item);
}

abbrev settings : Settings
settings = record {
  app_name = str "hub";
  admin_username = str "root";
  admin_password = str "secret";
  admin_ip_whitelist = str "10." ∷ [];
}

abbrev cookie : Text
cookie = str "root:5:d"

abbrev request : Request
request = record {
  path = str "/admin/index.html";
  client_host = str "10.1";
  session_cookie = cookie;
  authorization = [];
}

cookie-accepted : admin_user_from_session_cookie tools settings 9 cookie ≡ returned (str "root")
unfolding admin_user_from_session_cookie split_session_cookie str partition ◌==◌
cookie-accepted = refl

root-is_not_empty : is_empty (str "root") ≡ false
unfolding str
root-is_not_empty = refl

admin_user_from_session_cookie-Session_example : Session tools settings 9 cookie (str "root")
admin_user_from_session_cookie-Session_example =
    admin_user_from_session_cookie-Session tools settings 9 cookie (str "root") root-is_not_empty
      cookie-accepted

index-guarded : is_unguarded tools settings request.path ≡ false
unfolding is_unguarded str starts_with is_one_of ◌==◌
index-guarded = refl

index-passed_on : dispatch tools settings 9 request ≡ passed_on
unfolding dispatch str starts_with is_one_of ◌==◌ partition
index-passed_on = refl

dispatch-Admitted_example :
    ((settings.admin_ip_whitelist ≡ [])
      ⊎ Listed tools settings request.client_host settings.admin_ip_whitelist)
    × Admitted tools settings 9 request
dispatch-Admitted_example = dispatch-Admitted tools settings 9 request index-guarded index-passed_on

root-plain : AreOther 58 settings.admin_username
unfolding str
root-plain = (refl, (refl, (refl, (refl, tt))))

root-is_ascii : is_ascii settings.admin_username ≡ true
unfolding str
root-is_ascii = refl

digests :
    (secret payload : Text)
    → (is_empty (digest secret payload) ≡ false) × (is_ascii (digest secret payload) ≡ true)
unfolding str
digests = λ secret payload. (refl, refl)

reads_five : tools.parse_int (decimal 5) ≡ some (pos 5)
unfolding decimal
reads_five = refl

created-accepted_example :
    admin_user_from_session_cookie tools settings 9
      (create_admin_session_cookie tools settings settings.admin_username 5)
    ≡ returned settings.admin_username
created-accepted_example =
    created-accepted tools settings 5 9 root-is_not_empty root-is_ascii root-plain digests
      reads_five (omega arith)
