-- ===== src/Tests/Config.antt =====
-- The configuration at one that is set, and the bucket's client.
use s3_2_smb.Base.{Bytes, ◌≡◌, ◌≢◌, ◌↔◌, refl, false, none, [], ◌∷◌, codes, eqb, ok, Result}
use s3_2_smb.Disk.{Disk}
use s3_2_smb.Config.{Config, new_default_config, zero_s3, validate, load_config}
use s3_2_smb.Config.Laws.{IsFilled, validate_lem, load_config-IsFilled}
use s3_2_smb.S3client.Queries.{object_exists, object_exists_lem}
use s3_2_smb.Tests.Sample.{bucket}

abbrev config : Config
config = record new_default_config {
  s3 = record zero_s3 { bucket = codes "b"; region = codes "r"; secret_key = codes "s" };
  mount_point = codes "/m";
}

validate_lem_example :
    (validate config ≡ none) ↔ ((codes "b" ≢ []) × (codes "r" ≢ []) × (codes "/m" ≢ []))
validate_lem_example = validate_lem config

-- What JSON has of it.
abbrev parsed : Config
parsed = record config { s3 = record config.s3 { secret_key = [] } }

abbrev printed : Bytes
printed = codes "{}"

abbrev unmarshal : Bytes → Config → Result Config
unmarshal text c = ok parsed

abbrev no_env : Bytes → Bytes
no_env name = []

abbrev written : Disk
written = record { files = (codes "c.json", printed) ∷ []; fault = λ c p. none }

load_config-IsFilled_example : IsFilled parsed
unfolding load_config eqb
load_config-IsFilled_example =
    load_config-IsFilled unmarshal no_env written (codes "c.json") parsed refl

object_exists_lem_example : object_exists bucket [] (λ k. none) (codes "k") ≢ ok false
object_exists_lem_example = object_exists_lem bucket [] (λ k. none) (codes "k")
