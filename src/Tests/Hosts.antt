-- ===== src/Tests/Hosts.antt =====
-- A private repository on S3.
use snailmail.Base.{Bytes, codes, pos, ◌≡◌, refl, ◌⊎◌, true, false, Option, some, []}
use snailmail.State.Urls.{Url}
use snailmail.State.Hosts.{HostConfig, HostedRepository, valid_repository_host}
use snailmail.State.Hosts.Safe.{LocalHost, RsyncHost, S3Host, PagesHost, valid_repository_host_lem}
use snailmail.State.Names.{valid_git_branch, valid_github_repository}

abbrev no_host : Bytes → HostConfig
no_host kind = record {
  kind = kind;
  path = [];
  target = [];
  bucket = [];
  prefix = [];
  region = [];
  endpoint = [];
  canonical_endpoint = [];
  use_path_style = false;
  read_auth = [];
  credential_broker = [];
  repository = [];
  branch = [];
  preview_repository = [];
  preview_branch = [];
  preview_endpoint = [];
}

abbrev private_repository : HostedRepository
private_repository = record {
  format = codes "rpm";
  gate = codes "auto";
  visibility = codes "private";
  keep = pos 5;
  host = record (no_host (codes "s3")) {
    bucket = codes "packages";
    prefix = codes "yum";
    canonical_endpoint = codes "https://packages.example/yum";
    read_auth = codes "basic";
    credential_broker = codes "default";
  };
}

-- Every text is this URL.
abbrev parse_url : Bytes → Option Url
parse_url _ = some (record {
  scheme = codes "https";
  host = codes "packages.example";
  hostname = codes "packages.example";
  has_user = false;
  raw_query = [];
  fragment = [];
  escaped_path = codes "/yum";
})

abbrev clean : Bytes → Bytes
clean path = path

private_accepted : valid_repository_host parse_url clean private_repository ≡ true
unfolding valid_repository_host
private_accepted = refl

-- Without the broker the configuration is refused.
broker_needed :
    valid_repository_host parse_url clean (record private_repository {
      host = record private_repository.host { credential_broker = [] };
    })
    ≡ false
unfolding valid_repository_host
broker_needed = refl

valid_repository_host_lem_example :
    LocalHost parse_url clean private_repository
    ⊎ (RsyncHost parse_url clean private_repository
        ⊎ (S3Host parse_url clean private_repository
            ⊎ PagesHost parse_url clean private_repository))
valid_repository_host_lem_example =
    valid_repository_host_lem parse_url clean private_repository private_accepted

branch_names :
    (valid_git_branch (codes "release/1.0") ≡ true)
    × (valid_git_branch (codes "a..b") ≡ false)
    × (valid_git_branch (codes "main.lock") ≡ false)
    × (valid_github_repository (codes "shellcell/snailmail") ≡ true)
    × (valid_github_repository (codes "shellcell/x.git") ≡ false)
unfolding valid_git_branch valid_github_repository
branch_names = (refl, refl, refl, refl, refl)
