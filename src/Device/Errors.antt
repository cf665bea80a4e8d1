-- ===== src/Device/Errors.antt =====
-- src/labelfab/device/errors.py: the failures of the device layer, and which may be retried.
use labelfab.Common.{Bool, true, false}

pub data D30Error : Type 0 where
  connect_error write_timeout config_error not_ready geometry_error : D30Error

unfoldable pub retryable : D30Error → Bool
retryable connect_error = true
retryable write_timeout = true
retryable config_error = false
retryable not_ready = false
retryable geometry_error = false
