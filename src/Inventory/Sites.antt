-- ===== src/Inventory/Sites.antt =====
-- Sites: services/api/cmd/api/sites.go with its functions in services/api/internal/store/store.go.
use smart_deploy_linux.Prelude.Table.{find, any, update, delete}
use smart_deploy_linux.Prelude.{
  ℕ, Bool, true, false, not, ◌&&◌, ◌||◌, Option, none, some, List, [], ◌∷◌, ◌++◌, Bytes, bytes_eq,
  codes, if◌then◌else◌,
}
use smart_deploy_linux.Schema
use smart_deploy_linux.Schema.{db_error, Error, Result, ok, err}
use smart_deploy_linux.Access.{Principal, has_perm}

pub record Site : Type 0 where
  pub name : Bytes
  pub mirror_base_url : Option Bytes
  pub description : Option Bytes
  pub created_at : ℕ

pub data Query : Type 0 where
  upsert_site delete_site select_mirror : Query

abbrev pub Faults : Type 0
Faults = Query → Bool

abbrev pub is_site : Bytes → Site → Bool
is_site name s = bytes_eq s.name name

abbrev pub new_site : ℕ → Bytes → Option Bytes → Option Bytes → Site
new_site now name mirror description = record {
  name = name;
  mirror_base_url = mirror;
  description = description;
  created_at = now;
}

abbrev pub moved : Option Bytes → Option Bytes → Site → Site
moved mirror description s = record s { mirror_base_url = mirror; description = description }

unfoldable pub upsert_site_row :
    Faults → ℕ → List Site → Bytes → Option Bytes → Option Bytes → List Site × Result Site
upsert_site_row fails now sites name mirror description =
    if fails upsert_site then (sites, err db_error) else elim (find (is_site name) sites) [
      | some s ↦
          (update (is_site name) (moved mirror description) sites, ok (moved mirror description s))
      | none ↦ (
        sites ++ new_site now name mirror description ∷ [],
        ok (new_site now name mirror description),
      )
    ]

unfoldable pub delete_site_row : Faults → List Site → Bytes → List Site × Option Error
delete_site_row fails sites name =
    if fails delete_site
    then (sites, some db_error)
    else if any (is_site name) sites
    then (delete (is_site name) sites, none)
    else (sites, some Schema.not_found)

abbrev pub or_empty : Option Bytes → Bytes
or_empty none = []
or_empty (some url) = url

unfoldable pub site_mirror : Faults → List Site → Bytes → Result Bytes
unfolding bytes_eq
site_mirror fails sites name =
    if bytes_eq name []
    then ok []
    else if fails select_mirror
    then err db_error
    else elim (find (is_site name) sites) [
      | none ↦ ok []
      | some s ↦ ok (or_empty s.mirror_base_url)
    ]

pub record UpsertSiteReq : Type 0 where
  pub name : Bytes
  pub mirror_base_url : Option Bytes
  pub description : Option Bytes

pub data SiteReply : Type 0 where
  forbidden bad_json name_required bad_mirror upsert_error delete_error not_found no_content :
      SiteReply
  saved : Site → SiteReply

-- url.Parse: the scheme and the host.
pub record Url : Type 0 where
  pub scheme : Bytes
  pub host : Bytes

abbrev pub is_http : Url → Bool
is_http url =
    (bytes_eq url.scheme (codes "http") || bytes_eq url.scheme (codes "https"))
    && not (bytes_eq url.host [])

abbrev pub save_reply : List Site × Result Site → List Site × SiteReply
save_reply (sites, err _) = (sites, upsert_error)
save_reply (sites, ok s) = (sites, saved s)

module _ (parse_url : Bytes → Option Url) where
  unfoldable pub is_mirror : Option Bytes → Bool
  unfolding bytes_eq
  is_mirror none = true
  is_mirror (some text) =
      if bytes_eq text []
      then true
      else elim (parse_url text) [ none ↦ false | some url ↦ is_http url ]

  unfoldable pub upsert_site_handler :
      Faults → ℕ → Option Principal → Option UpsertSiteReq → List Site → List Site × SiteReply
  unfolding is_mirror
  upsert_site_handler fails now p body sites =
      if not (has_perm p "machine.write") then (sites, forbidden) else elim body [
        | none ↦ (sites, bad_json)
        | some req ↦
            if bytes_eq req.name []
            then (sites, name_required)
            else if not (is_mirror req.mirror_base_url)
            then (sites, bad_mirror)
            else save_reply
                (upsert_site_row fails now sites req.name req.mirror_base_url req.description)
      ]

abbrev pub delete_reply : List Site × Option Error → List Site × SiteReply
delete_reply (sites, none) = (sites, no_content)
delete_reply (sites, some Schema.not_found) = (sites, not_found)
delete_reply (sites, some _) = (sites, delete_error)

unfoldable pub delete_site_handler :
    Faults → Option Principal → Bytes → List Site → List Site × SiteReply
delete_site_handler fails p name sites =
    if not (has_perm p "machine.write")
    then (sites, forbidden)
    else delete_reply (delete_site_row fails sites name)
