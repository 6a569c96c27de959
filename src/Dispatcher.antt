-- ===== src/Dispatcher.antt =====
-- dispatcher: the worker that delivers webhooks, with retries and dead letters.
pub mod Retry
pub mod Backoff
pub mod WebhookRepo
pub mod Delivery
pub mod Resolver
pub mod Processor
pub mod ResolverLaws
pub mod DeliveryLaws
pub mod ProcessorLaws
pub mod Attempts
pub mod Loop
pub mod LoopLaws
pub mod Stops
