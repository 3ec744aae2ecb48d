-- ===== src/Core.antt =====
-- infly/core: the error codes and the exceptions, and the data that the parts exchange.
pub mod Errors
pub mod Contracts
