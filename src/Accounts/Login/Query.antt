-- ===== src/Accounts/Login/Query.antt =====
-- The text of the query for a name and a password, and what it says of the two.
use jira_game.Base.{
  All, Option, Text, [], ap, append_assoc, ap₂, arith, c_str, codes, false, refl, some, some_inj,
  sym, ◌++◌, ◌==◌, ◌∙◌, ◌∷◌, ◌≡◌, ◌≢◌,
}
use jira_game.Proto.{LoginRequest}
use jira_game.Db.{select_where_text}
use jira_game.Db.Texts.{select_where_text-eq}
use jira_game.Accounts.Rows.{quoted}

-- What stands between the two quoted values.
abbrev pub between : Text
between = codes "' and password='"

abbrev pub login_text : LoginRequest → Text
login_text req =
    codes "select * from userInfo where name='"
    ++ (req.user_name ++ (between ++ (req.pass_word ++ codes "';")))

pub select_where_text-login :
    (req : LoginRequest)
    → select_where_text
        (codes "userInfo")
        (codes "name" ∷ codes "password" ∷ [])
        (quoted req.user_name ∷ quoted req.pass_word ∷ [])
        2
      ≡ some (login_text req)
select_where_text-login req =
    (select_where_text-eq (codes "userInfo") (codes "name", quoted req.user_name)
      ((codes "password", quoted req.pass_word) ∷ [])).0
    ∙ ap some (simp append_assoc)

-- A text that neither ends a quoted value nor a C string.
abbrev pub Plain : Text → Type 0
Plain = All λ c. (c ≢ 39) × (c ≢ 0)

up_to_quote : (u v x y : Text) → Plain u → Plain v → u ++ 39 ∷ x ≡ v ++ 39 ∷ y → (u ≡ v) × (x ≡ y)
up_to_quote [] [] x y hu hv e = ground (arith, e)
up_to_quote [] (b ∷ v) x y hu hv e = ground (arith, hv.0.0, e)
up_to_quote (a ∷ u) [] x y hu hv e = ground (arith, hu.0.0, e)
up_to_quote (a ∷ u) (b ∷ v) x y hu hv e =
    let first : a ≡ b = cc e in
    let others : u ++ 39 ∷ x ≡ v ++ 39 ∷ y = cc e in
    let (same, rest) = up_to_quote u v x y hu.1 hv.1 others in (ap₂ (λ c t. c ∷ t) first same, rest)

append-cancel : (t x y : Text) → t ++ x ≡ t ++ y → x ≡ y
append-cancel [] x y e = e
append-cancel (c ∷ t) x y e = append-cancel t x y (cc e)

c_str-append : (t x : Text) → Plain t → c_str (t ++ x) ≡ t ++ c_str x
unfolding c_str
c_str-append [] x h = refl
c_str-append (c ∷ t) x h =
    let go_on : (c == 0) ≡ false = ground (arith, h.0.1) in
    rw go_on (ap (λ r. c ∷ r) (c_str-append t x h.1))

c_str-login_text :
    (req : LoginRequest)
    → Plain req.user_name
    → Plain req.pass_word
    → c_str (login_text req) ≡ login_text req
unfolding c_str
c_str-login_text req hu hp =
    ap (λ t. codes "select * from userInfo where name='" ++ t)
      (c_str-append req.user_name _ hu
        ∙ ap (λ t. req.user_name ++ (between ++ t)) (c_str-append req.pass_word _ hp))

login_text-injective :
    (r s : LoginRequest)
    → Plain r.user_name
    → Plain r.pass_word
    → Plain s.user_name
    → Plain s.pass_word
    → c_str (login_text r) ≡ c_str (login_text s)
    → (r.user_name ≡ s.user_name) × (r.pass_word ≡ s.pass_word)
login_text-injective r s ru rp su sp e =
    let texts = sym (c_str-login_text r ru rp) ∙ e ∙ c_str-login_text s su sp in
    let (user, rest) =
      up_to_quote r.user_name s.user_name _ _ ru su
        (append-cancel (codes "select * from userInfo where name='") _ _ texts) in
    (
      user,
      (up_to_quote r.pass_word s.pass_word _ _ rp sp
          (append-cancel (codes " and password='") _ _ rest)).0,
    )

-- The text that `SelectWhere` builds for a name and a password.
abbrev pub login_where : LoginRequest → Option Text
login_where req =
    select_where_text (codes "userInfo") (codes "name" ∷ codes "password" ∷ [])
      (quoted req.user_name ∷ quoted req.pass_word ∷ []) 2

-- Where names and passwords have neither a quote nor a NUL byte, two logins for which `SelectWhere`
-- builds texts that sqlite reads as the same have the same name and the same password.
pub select_where_text-injective :
    (r s : LoginRequest) (t u : Text)
    → Plain r.user_name
    → Plain r.pass_word
    → Plain s.user_name
    → Plain s.pass_word
    → login_where r ≡ some t
    → login_where s ≡ some u
    → c_str t ≡ c_str u
    → (r.user_name ≡ s.user_name) × (r.pass_word ≡ s.pass_word)
select_where_text-injective r s t u ru rp su sp hr hs e =
    let et : login_text r ≡ t = some_inj (sym (select_where_text-login r) ∙ hr) in
    let eu : login_text s ≡ u = some_inj (sym (select_where_text-login s) ∙ hs) in
    login_text-injective r s ru rp su sp (ap c_str et ∙ e ∙ ap c_str (sym eu))

-- With quotes, other names and passwords build the same query.
pub login_text_ambiguous :
    (u p q : Text)
    → login_text (record { user_name = u; pass_word = p ++ (between ++ q) })
      ≡ login_text (record { user_name = u ++ (between ++ p); pass_word = q })
login_text_ambiguous u p q = simp append_assoc
