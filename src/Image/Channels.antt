-- ===== src/Image/Channels.antt =====
-- The channel counts of include/imgjit/core/image.h, which the protocol shares.
use image_processing_engine.Prelude.{ℕ, Bool, ◌||◌, ◌==◌}

unfoldable pub is_supported_channel_count : ℕ → Bool
is_supported_channel_count channels = channels == 1 || channels == 3 || channels == 4
