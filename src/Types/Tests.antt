-- ===== src/Types/Tests.antt =====
-- Tests of types.go.
use inmem_cache.Base.{◌≡◌, refl, none, some, ◌*◌, ◌^◌}
use inmem_cache.Base.Bytes.{bytes}
use inmem_cache.Types.Megabytes.{mb_text, ten_thousandths}
use inmem_cache.Decimal.{append_digits}
use inmem_cache.Types.{Item, approx_item_size, Config, with_defaults, EventsMode}

abbrev blank : Item
blank = record {
  scope = bytes "s";
  id = bytes "id";
  seq = 0;
  ts = 0;
  payload = bytes "1";
  render_bytes = none;
  counter = none;
}

size_blank : approx_item_size blank ≡ 52
unfolding approx_item_size
size_blank = refl

size_counter : approx_item_size (record blank { counter = some 0 }) ≡ 107
unfolding approx_item_size
size_counter = refl

abbrev empty_config : Config
empty_config = record {
  scope_max_items = 0;
  max_store_bytes = 0;
  max_item_bytes = 0;
  events_mode = EventsMode.off;
  inbox = record { max_items = 0; max_item_bytes = 0 };
}

defaults_store : (with_defaults empty_config).max_store_bytes ≡ 100 * 2 ^ 20
unfolding with_defaults
defaults_store = refl

-- The example of the comment of MB, and a number of bytes that is half of a ten thousandth.
shown_mb : mb_text 79845 ≡ bytes "0.0761"
unfolding mb_text ten_thousandths append_digits
shown_mb = refl

shown_half : mb_text 32768 ≡ bytes "0.0312"
unfolding mb_text ten_thousandths append_digits
shown_half = refl
