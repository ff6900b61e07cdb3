-- ===== src/Destination/Create.antt =====
-- `create_destination` of src/destination.rs.
use reposync.Base.{Option, none, some, Text}
use reposync.World.{Io, pure, abort, unwrap, ◌>>=◌}
use reposync.Config.Data.{GeneralConfig, DestinationConfig, S3Config, LocalConfig}
use reposync.Config.Load.{get_aws_credentials}
use reposync.Destination.{Destination}
use reposync.Destination.S3.{S3Destination, s3_destination}
use reposync.Destination.Local

-- `create_destination`
s3_of : GeneralConfig → S3Config → Text × Text → S3Destination
s3_of general s3 (access_key, access_key_secret) = record {
  path = s3.path;
  s3_endpoint = s3.s3_endpoint;
  s3_bucket = s3.s3_bucket;
  cloudfront_endpoint = s3.cloudfront_endpoint;
  cloudfront_arn = s3.cloudfront_distribution_id;
  region_name = s3.region_name;
  access_key_id = access_key;
  access_key_secret = access_key_secret;
  max_retries = general.max_retries;
  retry_sleep = general.retry_sleep;
}

destination_of : GeneralConfig → Option S3Config → Option LocalConfig → Io Destination
unfolding s3_of get_aws_credentials Local.new
destination_of general (some s3) local = do
  credentials ← unwrap (get_aws_credentials s3)
  pure (s3_destination (s3_of general s3 credentials))
destination_of general none (some local) = do
  d ← Local.new local.path
  pure (Local.local_destination d)
destination_of general none none = abort

unfoldable pub create_destination : GeneralConfig → DestinationConfig → Io Destination
unfolding destination_of
create_destination general destination = destination_of general destination.s3 destination.local
