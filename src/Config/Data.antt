-- ===== src/Config/Data.antt =====
-- The structures of src/config.rs. The secrets of a repository stay texts.
use reposync.Base.{ℕ, Option, List, Text}

pub record SourceConfig : Type 0 where
  pub endpoint : Text
  pub kind : Text
  pub public_pgp_key : Option Text
  pub username : Option Text
  pub password : Option Text
  pub authorization_file : Option Text

pub record S3Config : Type 0 where
  pub s3_endpoint : Text
  pub s3_bucket : Text
  pub path : Text
  pub cloudfront_endpoint : Option Text
  pub cloudfront_distribution_id : Option Text
  pub region_name : Text
  pub access_key_id : Option Text
  pub access_key_secret : Option Text
  pub aws_credential_file : Option Text

pub record LocalConfig : Type 0 where
  pub path : Text

pub record DestinationConfig : Type 0 where
  pub s3 : Option S3Config
  pub local : Option LocalConfig

pub record RepositoryConfig : Type 0 where
  pub name : Text
  pub source : SourceConfig
  pub destination : DestinationConfig
  pub versions : List Text

pub record GeneralConfig : Type 0 where
  pub data_path : Text
  pub tmp_path : Text
  pub bind_address : Text
  pub timeout : ℕ
  pub max_retries : ℕ
  pub retry_sleep : ℕ
  pub min_sync_delay : ℕ
  pub max_sync_delay : ℕ

pub record Config : Type 0 where
  pub general : GeneralConfig
  pub repo : List RepositoryConfig
