-- ===== src/QueueListener/Options/Tests.antt =====
-- Tests and instances for the options and the accepting loop of queuelistener/listener.go.
use skipper.Prelude.{◌≡◌, ◌<◌, ◌≤◌, refl, arith}
use skipper.Prelude.Int.{pos}
use skipper.QueueListener.Options.{
  Options, listen_with, with_defaults, max_concurrency, max_queue_size,
}
use skipper.QueueListener.Options.Sizes.{listen_with_sizes, expected_size}

-- The defaults: 3000 connections, and a queue of 30000.
abbrev nothing_set : Options
nothing_set = record {
  max_concurrency = 0;
  max_queue_size = 0;
  memory_limit_bytes = 0;
  connection_bytes = 0;
}

defaults : listen_with nothing_set ≡ record { concurrency = 3000; queue_size = pos 30000 }
unfolding listen_with with_defaults max_concurrency max_queue_size
defaults = refl

defaults-small : (listen_with nothing_set).concurrency ≤ 922337203685477580
unfolding listen_with with_defaults max_concurrency
defaults-small = omega arith

listen_with_sizes_example :
    (0 < (listen_with nothing_set).concurrency)
    × ((listen_with nothing_set).queue_size
        ≡ pos (expected_size 0 (listen_with nothing_set).concurrency))
    × (0 < expected_size 0 (listen_with nothing_set).concurrency)
listen_with_sizes_example = listen_with_sizes nothing_set defaults-small
