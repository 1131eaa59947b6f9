-- ===== src/Converse/Link/Runs.antt =====
-- Runs of the service between servers.
use cs.Prelude.{refl, List, [], ◌∷◌}
use cs.Converse.Link.{Address, Impl, has_writer}
use cs.Converse.Link.Streams.{
  AllTold, Request, subscribe, cancel, identify, serve_all, AllFresh, serve_all-AllTold,
}

abbrev server_1 : Address
server_1 = record { host = b'a' ∷ []; port = 50051 }

abbrev alone : Impl
alone = record { cluster_addresses = server_1 ∷ []; client_writers = []; cluster_writers = [] }

abbrev three_requests : List Request
three_requests = subscribe 4 ∷ identify (record { host = b'b' ∷ []; port = 50052 }) ∷ cancel 4 ∷ []

three_requests-AllFresh : AllFresh alone three_requests
unfolding has_writer
three_requests-AllFresh = (refl, tt)

serve_all-AllTold_example :
    AllTold
      (serve_all alone three_requests).cluster_addresses
      (serve_all alone three_requests).client_writers
serve_all-AllTold_example = serve_all-AllTold alone three_requests three_requests-AllFresh tt
