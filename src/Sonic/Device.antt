-- ===== src/Sonic/Device.antt =====
-- pkg/sonic/db_device.go: the switch-level metadata.
use sonic_operator.Base.{
  Text, codes, is_empty, [], ◌∷◌, Error, errorf, wrapf, Exec, reject, or_fail, ◌>>◌, Fields,
}
use sonic_operator.Redis.{Redis}
use sonic_operator.Sonic.Keys.{DbAccessor}

unfoldable pub metadata_key : Text
metadata_key = codes "DEVICE_METADATA|localhost"

module _ {W Client : Type 0} (redis : Redis W Client) (db : DbAccessor Client) where
  unfoldable pub set_hostname : Text → Exec W Error (Unit {0})
  set_hostname hostname = do
    reject (is_empty hostname) (errorf "hostname must not be empty" [])
    or_fail (wrapf "failed to set hostname: %w" [])
        (redis.hset db.config_db metadata_key ((codes "hostname", hostname) ∷ []))

  unfoldable pub get_device_metadata : Exec W Error Fields
  get_device_metadata =
      or_fail (wrapf "failed to get device metadata: %w" [])
        (redis.hgetall db.config_db metadata_key)
