-- ===== src/Queue/Uninterrupted.antt =====
-- app/core/queue.py, `enqueue`: the whole method against its parts.
